-- ===== src/Service/Task/Counts.antt =====
-- The counters that a run of the callback tasks returns, and the tasks that it leaves alone.
use group_buy_market.Prelude.{
  ℕ, suc, ◌+◌, ◌≤◌, ◌≡◌, refl, ◌∙◌, true, List, [], ◌∷◌, All, length, arith,
}
use group_buy_market.Types.Outcome.{ok}
use group_buy_market.Trade.Entities.{Time}
use group_buy_market.Trade.Notify.{NotifyTaskEntity, is_terminal}
use group_buy_market.Store.Rows.{World}
use group_buy_market.Store.Call.{pure, ◌>>=◌}
use group_buy_market.Store.Rules.{Post, pure-Post}
use group_buy_market.Store.Facts.{each-Post, weaken-Post}
use group_buy_market.Service.Task.{
  Delivery, succeeded, failed, retried, unchanged, NotifyCounts, count_delivery, TradePort,
  exec_one, exec_loop, exec_list,
}

abbrev pub counted : NotifyCounts → ℕ
counted c = c.success_count + c.error_count + c.retry_count

count_delivery-counted :
    (d : Delivery) (c : NotifyCounts) → counted (count_delivery d c) ≤ suc (counted c)
count_delivery-counted succeeded c = omega arith
count_delivery-counted failed c = omega arith
count_delivery-counted retried c = omega arith
count_delivery-counted unchanged c = omega arith

count_delivery-wait :
    (d : Delivery) (c : NotifyCounts) → (count_delivery d c).wait_count ≡ c.wait_count
count_delivery-wait succeeded c = refl
count_delivery-wait failed c = refl
count_delivery-wait retried c = refl
count_delivery-wait unchanged c = refl

-- What a list of `n` tasks may add to the counters.
abbrev Counts : NotifyCounts → ℕ → NotifyCounts → Type 0
Counts c n d = (d.wait_count ≡ c.wait_count) × (counted d ≤ counted c + n)

module _ {D : Type 0} where
  exec_loop-Counts :
      (port : TradePort D) (now : Time) (ts : List NotifyTaskEntity) (c : NotifyCounts)
      (w : World D)
      → Post (exec_loop port now ts c) w (λ d v. Counts c (length ts) d)
  exec_loop-Counts port now [] c w = pure-Post _ _ _ (refl, omega arith)
  exec_loop-Counts port now (t ∷ ts) c w = each-Post _ _ w _ λ d v.
      weaken-Post _ _ _ v
        (λ e u h. (h.0 ∙ count_delivery-wait d c, omega (arith, h.1, count_delivery-counted d c)))
        (exec_loop-Counts port now ts (count_delivery d c) v)

  -- A run counts every task as waiting, and no task twice: the tasks counted as delivered, failed
  -- or retried are at most the tasks of the list, whatever the port answers or does to the world.
  pub exec_list-counted :
      (port : TradePort D) (now : Time) (tasks : List NotifyTaskEntity) (w : World D)
      → Post
          (exec_list port now tasks)
          w
          (λ c v. (c.wait_count ≡ length tasks) × (counted c ≤ length tasks))
  unfolding exec_list
  exec_list-counted port now tasks w =
      weaken-Post _ _ _ w (λ c v h. (h.0, omega (arith, h.1))) (exec_loop-Counts port now tasks _ w)

  skip :
      (port : TradePort D) (now : Time) (ts : List NotifyTaskEntity) (c : NotifyCounts)
      (w : World D)
      → All (λ t. is_terminal t.status ≡ true) ts
      → exec_loop port now ts c w ≡ (ok c, w)
  unfolding pure ◌>>=◌ exec_one
  skip port now [] c w h = refl
  skip port now (t ∷ ts) c w h = rw h.0 (skip port now ts c w h.1)

  -- Tasks that are delivered or have failed for good are left alone: the port is not called for
  -- them, no table changes, and only the number of waiting tasks is counted.
  pub exec_list-terminal :
      (port : TradePort D) (now : Time) (tasks : List NotifyTaskEntity) (w : World D)
      → All (λ t. is_terminal t.status ≡ true) tasks
      → exec_list port now tasks w ≡ (
        ok (record {
          wait_count = length tasks;
          success_count = 0;
          error_count = 0;
          retry_count = 0;
        }),
        w,
      )
  unfolding exec_list
  exec_list-terminal port now tasks w h = skip port now tasks _ w h
