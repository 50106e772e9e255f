-- ===== src/Runtime/Served.antt =====
-- Every thread that waits at the gate of joins can get its permit (src/core/join_concurrency.rs).
use bittice.Prelude.{ℕ, zero, suc, ◌+◌, ◌≤◌, arith, ◌≡◌, refl}
use mathlib.Core.Path.{subst}
use bittice.Runtime.Gate.{
  JoinGate, idle, acquire_join_permit, resume, drop_permit, Reaches, Serves, IsGuarded,
  drop_permit-IsGuarded, resume-IsGuarded, Reaches-IsGuarded,
}

-- Nobody is active, and `n` threads wait: one that was notified takes its permit and gives it back.
served_idle :
    (max n : ℕ) (g : JoinGate)
    → 1 ≤ max
    → IsGuarded max g
    → g.active ≡ 0
    → g.asleep + g.woken ≡ n
    → Serves max g idle
unfolding resume acquire_join_permit drop_permit
served_idle max zero g some_permit inv free waits = subst (Serves max g) empty Serves.done
  where
    none_asleep : g.asleep ≡ 0
    none_asleep = omega (arith, waits)

    none_woken : g.woken ≡ 0
    none_woken = omega (arith, waits)

    empty : g ≡ idle
    empty = λ i. record { active = free i; asleep = none_asleep i; woken = none_woken i }
served_idle max (suc n) g some_permit inv free waits = Serves.resumes notified (
    Serves.ends active (
      served_idle max n (drop_permit (resume max g)) some_permit
        (drop_permit-IsGuarded max (resume max g) (resume-IsGuarded max g notified inv))
        (ground (arith, some_permit, free)) (ground (arith, some_permit, free, waits, notified))))
  where
    notified : 1 ≤ g.woken
    notified = ground (arith, some_permit, inv.awake, free, waits)

    active : 1 ≤ (resume max g).active
    active = ground (arith, some_permit, free)

served : (max a : ℕ) (g : JoinGate) → 1 ≤ max → IsGuarded max g → g.active ≡ a → Serves max g idle
unfolding drop_permit
served max zero g some_permit inv held =
    served_idle max (g.asleep + g.woken) g some_permit inv held refl
served max (suc a) g some_permit inv held = Serves.ends (omega (arith, held)) (
    served max a (drop_permit g) some_permit (drop_permit-IsGuarded max g inv)
      (omega (arith, held)))

-- If the gate has at least one permit: from every state that it reaches, the joins that are active or wait
-- can all be served, that is, there are steps in which no new join begins, only joins end and notified
-- threads resume, to the state in which nobody is active and nobody waits.
pub Reaches-Serves : (max : ℕ) (g : JoinGate) → 1 ≤ max → Reaches max idle g → Serves max g idle
Reaches-Serves max g some_permit r =
    served max g.active g some_permit (Reaches-IsGuarded max g r) refl
