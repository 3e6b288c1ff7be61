-- ===== src/Platform/EventNotification/Delivery.antt =====
-- Notifications that are tested for on the notification that they were made on.
use entangle.Prelude.{ℕ, zero, suc, ◌+◌, ◌-◌, ◌^◌, ◌<◌, ◌≡◌, refl, ◌∙◌, true, arith}
use entangle.Platform.EventNotification.{Kernel, EventNotification, notify}
use entangle.Platform.EventNotification.Laws.{Laws, Keeps, notify_lem}

module _ (K : Kernel) where
  -- So many notifications in a row.
  abbrev pub notify_times : ℕ → EventNotification → K.State → K.State
  notify_times zero e s = s
  notify_times (suc times) e s = notify_times times e (notify K e s).1

  module _ (L : Laws K) where
    pub notify_times_lem :
        (times : ℕ) (e : EventNotification) (s : K.State)
        → L.is_open s e.fd ≡ true
        → L.counter s e.fd + times < 2 ^ 64 - 1
        → (L.counter (notify_times times e s) e.fd ≡ L.counter s e.fd + times)
          × Keeps K L e.fd s (notify_times times e s)
    notify_times_lem zero e s h room =
        (omega arith, record { same_open = λ o. refl; same_others = λ o ne. refl })
    notify_times_lem (suc times) e s h room =
        let (t, done, more, kept) = notify_lem K L s e h (omega arith) in
        let (count', kept') = notify_times_lem times e t (kept.same_open e.fd ∙ h) (omega arith) in
        rw done (
          omega arith,
          record {
            same_open = λ o. kept'.same_open o ∙ kept.same_open o;
            same_others = λ o ne. kept'.same_others o ne ∙ kept.same_others o ne;
          },
        )
