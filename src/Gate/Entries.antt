-- ===== src/Gate/Entries.antt =====
-- The ways into the gate, and out of its queues, keep its accounts. The moving request stands first.
use loxy_router.Base.{
  ℕ, suc, ◌<◌, ◌^◌, ◌≡◌, true, false, List, [], ◌∷◌, ◌++◌, arith, length, ℤ, pos, add64, add64_pos,
  total,
}
use loxy_router.Model.{Priority, interactive, batch, background}
use loxy_router.Gate.{
  Gate, queue_of, set_queue, acquire, admitted, rejected, waiting, cancel, is_closed, remove_chan,
}
use loxy_router.Gate.System.{
  Request, arriving, queued, serving, finished, InForce, limit_pos, queue_of-set_queue, owns,
}
use loxy_router.Gate.Accounting.{Inv, count-append, count-remove_chan, owns-le}

-- The three ways into the gate, with the gate that each leaves behind.
pub acquire_admitted :
    (g : Gate) (live : ℤ) (p : Priority)
    → InForce g
    → (acquire g live p).1 ≡ admitted
    → (acquire g live p).0 ≡ record g { inflight = add64 g.inflight (pos 1) }
unfolding acquire
acquire_admitted g live p f h = ground (arith, limit_pos g live f)

pub acquire_rejected :
    (g : Gate) (live : ℤ) (p : Priority)
    → (acquire g live p).1 ≡ rejected
    → (acquire g live p).0 ≡ g
unfolding acquire
acquire_rejected g live p h = ground arith

pub acquire_waiting :
    (g : Gate) (live : ℤ) (p : Priority) (c : ℕ)
    → (acquire g live p).1 ≡ waiting c
    → (c ≡ g.next_chan)
      × ((acquire g live p).0 ≡ record g {
        queues = set_queue g.queues p (queue_of g.queues p ++ c ∷ []);
        next_chan = suc g.next_chan;
      })
unfolding acquire
acquire_waiting g live p c h = ground arith

module _ (g : Gate) (rs : List Request) where
  pub enters-Inv :
      (p : Priority)
      → length rs < 2 ^ 62
      → Inv g (arriving p ∷ rs)
      → Inv (record g { inflight = add64 g.inflight (pos 1) }) (serving ∷ rs)
  enters-Inv p w v = record {
    in_force = v.in_force;
    counted =
        ground (arith, v.counted, add64_pos (total (owns g.closed) rs) 1, owns-le g.closed rs);
    linked = v.linked;
    shut = v.shut;
    unique = v.unique;
    fresh = v.fresh;
  }

  pub bounces-Inv : (p : Priority) → Inv g (arriving p ∷ rs) → Inv g (finished ∷ rs)
  bounces-Inv p v = record {
    in_force = v.in_force;
    counted = v.counted;
    linked = v.linked;
    shut = v.shut;
    unique = v.unique;
    fresh = v.fresh;
  }

  pub waits-Inv :
      (p : Priority)
      → Inv g (arriving p ∷ rs)
      → Inv
          (record g {
            queues = set_queue g.queues p (queue_of g.queues p ++ g.next_chan ∷ []);
            next_chan = suc g.next_chan;
          })
          (queued p g.next_chan ∷ rs)
  waits-Inv p v = record {
    in_force = v.in_force;
    counted = ground (arith, v.counted, v.fresh p g.next_chan);
    linked = λ r c o. ground (
      arith,
      v.linked r c o,
      queue_of-set_queue g.queues p r (queue_of g.queues p ++ g.next_chan ∷ []),
      count-append c (queue_of g.queues p) (g.next_chan ∷ []),
      v.linked p c o,
    );
    shut = λ r c o. ground (
      arith,
      v.shut r c o,
      v.shut p c o,
      v.fresh p c,
      queue_of-set_queue g.queues p r (queue_of g.queues p ++ g.next_chan ∷ []),
      count-append c (queue_of g.queues p) (g.next_chan ∷ []),
    );
    unique = λ c.
        ground (arith, v.unique c, v.fresh interactive c, v.fresh batch c, v.fresh background c);
    fresh = λ r c l. ground (arith, v.fresh r c);
  }

  pub wakes-Inv :
      (p : Priority) (c : ℕ)
      → is_closed c g.closed ≡ true
      → Inv g (queued p c ∷ rs)
      → Inv g (serving ∷ rs)
  wakes-Inv p c h v = record {
    in_force = v.in_force;
    counted = ground (arith, v.counted);
    linked = λ r d o. ground (arith, v.linked r d o);
    shut = v.shut;
    unique = λ d. omega (arith, v.unique d);
    fresh = λ r d l. ground (arith, v.fresh r d l);
  }

  pub gives_up-Inv :
      (p : Priority) (c : ℕ)
      → is_closed c g.closed ≡ false
      → Inv g (queued p c ∷ rs)
      → Inv
          (record g { queues = set_queue g.queues p (remove_chan c (queue_of g.queues p)) })
          (finished ∷ rs)
  gives_up-Inv p c h v = record {
    in_force = v.in_force;
    counted = ground (arith, v.counted);
    linked = λ r d o. ground (
      arith,
      v.linked r d o,
      queue_of-set_queue g.queues p r (remove_chan c (queue_of g.queues p)),
      count-remove_chan c d (queue_of g.queues p),
      v.linked p d o,
    );
    shut = λ r d o. ground (
      arith,
      v.shut r d o,
      v.shut p d o,
      queue_of-set_queue g.queues p r (remove_chan c (queue_of g.queues p)),
      count-remove_chan c d (queue_of g.queues p),
    );
    unique = λ d. omega (arith, v.unique d);
    fresh = λ r d l. ground (arith, v.fresh r d l);
  }

-- What `cancel` returns, by whether the channel was closed in time.
pub cancel_open :
    (g : Gate) (p : Priority) (c : ℕ)
    → (cancel g p c).1 ≡ false
    → (is_closed c g.closed ≡ false)
      × ((cancel g p c).0
          ≡ record g { queues = set_queue g.queues p (remove_chan c (queue_of g.queues p)) })
unfolding cancel
cancel_open g p c h = ground arith

pub cancel_woken :
    (g : Gate) (p : Priority) (c : ℕ)
    → (cancel g p c).1 ≡ true
    → (is_closed c g.closed ≡ true) × ((cancel g p c).0 ≡ g)
unfolding cancel
cancel_woken g p c h = ground arith
