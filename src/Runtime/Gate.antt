-- ===== src/Runtime/Gate.antt =====
-- The gate of joins (src/core/join_concurrency.rs): a counter of the active joins and a condition variable
-- on which threads wait for a permit. Threads are counted: those asleep on the variable, and those that
-- were notified and have not taken the lock again. The condition variable wakes no thread unasked.
use bittice.Prelude.{ℕ, ◌+◌, ◌-◌, ◌≤◌, leb, if◌then◌else◌, arith}

pub record JoinGate : Type 0 where
  pub active : ℕ
  pub asleep : ℕ
  pub woken : ℕ

abbrev pub idle : JoinGate
idle = record { active = 0; asleep = 0; woken = 0 }

-- A thread with the lock, in the `while` of `acquire_join_permit`: it sleeps or takes a permit.
unfoldable pub acquire_join_permit : ℕ → JoinGate → JoinGate
acquire_join_permit max g = record {
  active = if leb max g.active then g.active else g.active + 1;
  asleep = if leb max g.active then g.asleep + 1 else g.asleep;
  woken = g.woken;
}

-- `drop` of a permit, with `notify_one`.
unfoldable pub drop_permit : JoinGate → JoinGate
drop_permit g = record {
  active = g.active - 1;
  asleep = g.asleep - 1;
  woken = if leb 1 g.asleep then g.woken + 1 else g.woken;
}

-- A notified thread is back in the `while`.
unfoldable pub resume : ℕ → JoinGate → JoinGate
unfolding acquire_join_permit
resume max g =
    acquire_join_permit max (record { active = g.active; asleep = g.asleep; woken = g.woken - 1 })

-- What can happen next: a join begins, a notified thread resumes, or a join that has a permit ends.
pub data Step (max : ℕ) : JoinGate → JoinGate → Type 0 where
  begins : (g : JoinGate) → Step max g (acquire_join_permit max g)
  resumes : (g : JoinGate) → 1 ≤ g.woken → Step max g (resume max g)
  ends : (g : JoinGate) → 1 ≤ g.active → Step max g (drop_permit g)

-- Any number of steps.
pub data Reaches (max : ℕ) : JoinGate → JoinGate → Type 0 where
  here : {g : JoinGate} → Reaches max g g
  next_step : {g h k : JoinGate} → Step max g h → Reaches max h k → Reaches max g k

-- Steps in which no join begins.
pub data Serves (max : ℕ) : JoinGate → JoinGate → Type 0 where
  done : {g : JoinGate} → Serves max g g
  resumes : {g k : JoinGate} → 1 ≤ g.woken → Serves max (resume max g) k → Serves max g k
  ends : {g k : JoinGate} → 1 ≤ g.active → Serves max (drop_permit g) k → Serves max g k

-- At most `max` joins are active, and a thread sleeps only while the active joins and the notified threads
-- use all permits up: no wakeup is lost.
pub record IsGuarded (max : ℕ) (g : JoinGate) : Type 0 where
  pub bounded : g.active ≤ max
  pub awake : 1 ≤ g.asleep → max ≤ g.active + g.woken

acquire_join_permit-IsGuarded :
    (max : ℕ) (g : JoinGate) → IsGuarded max g → IsGuarded max (acquire_join_permit max g)
unfolding acquire_join_permit
acquire_join_permit-IsGuarded max g inv = record {
  bounded = ground (arith, inv.bounded);
  awake = λ sleeper. ground (arith, sleeper, inv.awake);
}

pub resume-IsGuarded :
    (max : ℕ) (g : JoinGate) → 1 ≤ g.woken → IsGuarded max g → IsGuarded max (resume max g)
unfolding resume acquire_join_permit
resume-IsGuarded max g notified inv = record {
  bounded = ground (arith, inv.bounded);
  awake = λ sleeper. ground (arith, sleeper, notified, inv.awake);
}

pub drop_permit-IsGuarded :
    (max : ℕ) (g : JoinGate) → IsGuarded max g → IsGuarded max (drop_permit g)
unfolding drop_permit
drop_permit-IsGuarded max g inv = record {
  bounded = ground (arith, inv.bounded);
  awake = λ sleeper. ground (arith, sleeper, inv.awake);
}

Step-IsGuarded : (max : ℕ) (g h : JoinGate) → Step max g h → IsGuarded max g → IsGuarded max h
Step-IsGuarded max g h (begins _) inv = acquire_join_permit-IsGuarded max g inv
Step-IsGuarded max g h (resumes _ notified) inv = resume-IsGuarded max g notified inv
Step-IsGuarded max g h (ends _ held) inv = drop_permit-IsGuarded max g inv

Reaches-IsGuarded_from :
    (max : ℕ) (g h : JoinGate) → Reaches max g h → IsGuarded max g → IsGuarded max h
Reaches-IsGuarded_from max g h here inv = inv
Reaches-IsGuarded_from max g h (next_step {h = next} s r) inv =
    Reaches-IsGuarded_from max next h r (Step-IsGuarded max g next s inv)

-- In every state that the gate reaches from the start, at most `max` joins are active, and a thread
-- sleeps only while the active joins and the notified threads together are at least `max`.
pub Reaches-IsGuarded : (max : ℕ) (g : JoinGate) → Reaches max idle g → IsGuarded max g
Reaches-IsGuarded max g r =
    Reaches-IsGuarded_from max idle g r
      (record { bounded = omega arith; awake = λ sleeper. absurd (omega (arith, sleeper)) })
