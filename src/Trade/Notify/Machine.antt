-- ===== src/Trade/Notify/Machine.antt =====
-- The transition table as a relation, and chains of moves through it.
use group_buy_market.Prelude.{
  ℕ, suc, ◌≤◌, ◌≡◌, ◌↔◌, ◌⊎◌, inl, inr, true, false, not, ◌&&◌, arith, List, [], ◌∷◌, length, ◌==◌,
  if◌then◌else◌, Bool-cases,
}
use group_buy_market.Types.Outcome.{Result, ok, err, panic, illegal_transition}
use group_buy_market.Trade.Notify.{NotifyTaskStatus, can_transition, move_to, is_terminal}

-- The documented life: from the start to any other state, from a retry to an end.
pub data Transition : NotifyTaskStatus → NotifyTaskStatus → Type 0 where
  first : (s to : NotifyTaskStatus) → s ≡ 0 → (to ≡ 1) ⊎ ((to ≡ 2) ⊎ (to ≡ 3)) → Transition s to
  again : (s to : NotifyTaskStatus) → s ≡ 2 → (to ≡ 1) ⊎ (to ≡ 3) → Transition s to

Transition-can : {s to : NotifyTaskStatus} → Transition s to → can_transition s to ≡ true
unfolding can_transition
Transition-can (first s to e h) = ground arith
Transition-can (again s to e h) = ground arith

can-Transition : (s to : NotifyTaskStatus) → can_transition s to ≡ true → Transition s to
unfolding can_transition
can-Transition s to h = elim (split s to h) [
  | inl (e, t) ↦ first s to e t
  | inr (e, t) ↦ again s to e t
]
  where
    split :
        (s to : ℕ)
        → can_transition s to ≡ true
        → ((s ≡ 0) × ((to ≡ 1) ⊎ ((to ≡ 2) ⊎ (to ≡ 3)))) ⊎ ((s ≡ 2) × ((to ≡ 1) ⊎ (to ≡ 3)))
    split s to h = ground arith

-- `MoveTo` succeeds exactly along the documented transitions, and then returns the target.
pub move_to-Transition : (s to : NotifyTaskStatus) → (move_to s to ≡ ok to) ↔ Transition s to
unfolding move_to
move_to-Transition s to =
    ((λ h. can-Transition s to (ground arith)), λ t. ground (arith, Transition-can t))

-- Of the four documented states, `IsTerminal` accepts exactly those that cannot move to success, and
-- a state that it accepts has no move at all.
pub is_terminal-stuck :
    (s to : NotifyTaskStatus)
    → s ≤ 3
    → (is_terminal s ≡ not (can_transition s 1)) × ((is_terminal s && can_transition s to) ≡ false)
unfolding is_terminal can_transition
is_terminal-stuck s to h = ground arith

-- `MoveTo` to one target after the other, each from the status that the last one returned.
abbrev pub move_all : NotifyTaskStatus → List NotifyTaskStatus → Result NotifyTaskStatus
move_all s [] = ok s
move_all s (t ∷ ts) = elim (move_to s t) [ ok u ↦ move_all u ts | err e ↦ err e | panic ↦ panic ]

abbrev moves_left : NotifyTaskStatus → ℕ
moves_left s = if s == 0 then 2 else if s == 2 then 1 else 0

can-moves_left :
    (s t : NotifyTaskStatus) → can_transition s t ≡ true → suc (moves_left t) ≤ moves_left s
unfolding can_transition
can-moves_left s t e = ground (arith, e)

-- A chain of `MoveTo` on one status that succeeds at every target has at most two targets from the
-- start (0), at most one from a retry (2) and none from any other status.
pub move_all-length :
    (s : NotifyTaskStatus) (ts : List NotifyTaskStatus) (u : NotifyTaskStatus)
    → move_all s ts ≡ ok u
    → length ts ≤ (if s == 0 then 2 else if s == 2 then 1 else 0)
unfolding move_to
move_all-length s [] u e = omega arith
move_all-length s (t ∷ ts) u e = elim (Bool-cases (can_transition s t)) [
  | inl can ↦
      omega (arith, can-moves_left s t can, move_all-length t ts u (rw (can, move_all) at e))
  | inr cannot ↦
      (let refused : err (illegal_transition s t) ≡ ok u = rw (cannot, move_all) at e in cc)
]
