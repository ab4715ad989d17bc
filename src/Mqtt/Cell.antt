-- ===== src/Mqtt/Cell.antt =====
-- mqtt/src/util.rs: a cell that notifies its subscribers of every mutable borrow.
use samsung_nasa.Base.{ℕ, ◌+◌}

-- `NotifyCell`: the value, and how often `notify.send_replace` was called.
pub record NotifyCell (T : Type 0) : Type 0 where
  pub inner : T
  pub notified : ℕ

-- `NotifyCell::default`, on the default of the value.
abbrev pub new : {T : Type 0} → T → NotifyCell T
new value = record { inner = value; notified = 0 }

-- `borrow_mut` up to the drop of the guard, which notifies; `change` is what is done through it.
unfoldable pub borrow_mut : {T : Type 0} → (T → T) → NotifyCell T → NotifyCell T
borrow_mut change cell = record { inner = change cell.inner; notified = cell.notified + 1 }
