-- ===== src/Tests/Process.antt =====
-- The group behind the loss of the lease.
use transflect.Base.{◌≡◌, refl, Bool, false, ◌<>◌, none, some, string_eq}
use transflect.Outcome.{ok, err, message, Error}
use transflect.Process.{main, run, Group, returned, Reach, here, later, start, operator_ends}
use transflect.Text.{itoa}
use transflect.Process.Servers.{HttpServer, new_probes_server, answer, found, text, probes_pass}

abbrev never_closed : Error → Bool
never_closed e = false

abbrev idle : Group
idle = record start { operator = returned (ok tt) }

idle-reached : Reach never_closed start idle
idle-reached = later here (operator_ends refl)

probes_pass_example :
    (s : HttpServer) × (new_probes_server 8080 ≡ ok s)
    × (s.addr ≡ ":" <> itoa 8080)
    × (answer idle.probes s "/_liveness" ≡ found (text "OK"))
unfolding string_eq
probes_pass_example = probes_pass never_closed idle-reached refl 8080 "/_liveness"

-- The process ends with exit code 0 behind a failed start, and with 1 where no operator was made.
exit_codes :
    (main {A = Unit {0}} (ok tt) (some (message "cannot start operator")) ≡ 0)
    × (main {A = Unit {0}} (err (message "no cluster")) none ≡ 1)
unfolding main run
exit_codes = (refl, refl)
