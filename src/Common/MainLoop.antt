-- ===== src/Common/MainLoop.antt =====
-- Calls on the GLib main loop, which is not modelled: a component keeps the calls that it makes,
-- and is given the ids that the main loop returns.
use Prim.Native.Nat.{ℕ}

pub data SourceCall : Type 0 where
  -- g_timeout_add, g_timeout_add_seconds or g_idle_add (interval 0), which return the id.
  add_timeout : (interval id : ℕ) → SourceCall
  -- g_source_remove
  remove : (id : ℕ) → SourceCall
