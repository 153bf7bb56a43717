-- ===== src/Election/Overlap.antt =====
-- A signal to the leader of a fleet, with a candidate behind it.
use transflect.Base.{ℕ, ◌≡◌, refl, ap, ◌≢◌, false, none, some, arith, nat_eq}
use transflect.Lifecycle.{init, serving, worker_count}
use transflect.Election.{
  candidate, leading, cancelled, released, Fleet, put, cancel_outer, release, Reach, here, later,
}
use transflect.Election.Succession.{Reach-trans, serves}

-- From every fleet in which `i` leads, whatever it is doing and however many workers it has, and `j`
-- is a candidate that has not started: when the context of `i` is cancelled from outside, as a signal
-- does, `j` can get the lease and start all its workers before `i` has taken one more step of its
-- own, so before any worker of `i` has ended.
pub signal_overlaps :
    (f : Fleet) (i j : ℕ)
    → i ≢ j
    → (f.member i).standing ≡ leading
    → (f.member j).standing ≡ candidate
    → (f.member j).life ≡ init
    → (g : Fleet) × Reach false f g
      × ((g.member i).life ≡ (f.member i).life)
      × (g.lease ≡ some j)
      × ((g.member j).life.lead ≡ serving)
      × ((g.member j).life.workers ≡ worker_count)
signal_overlaps f i j ne l c new =
    let f1 = put f i (record (f.member i) { standing = cancelled }) in
    let f2 : Fleet = record (put f1 i (record (f1.member i) { standing = released })) {
      lease = none;
    } in
    let r : Reach false f f2 =
      later (later here (cancel_outer i refl l)) (release i (ground arith)) in
    let g = serves {b = false} f2 j (ground arith) (ground (arith, new)) refl in
    (
      g.fleet,
      Reach-trans r g.reached,
      ground (arith, g.others i),
      g.leased,
      ap (λ m. m.life.lead) g.own,
      ap (λ m. m.life.workers) g.own,
    )
