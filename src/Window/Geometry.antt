-- ===== src/Window/Geometry.antt =====
-- src/gs-window-x11.c: the place of a window on its monitor, and how the X window follows it.
--
-- Cairo's regions are a parameter. The monitors are those that GDK numbers from 0, with their
-- geometry in pixels from the display's corner.
use budgie_screensaver.Common.{
  ℕ, zero, suc, ◌+◌, Bool, not, ◌&&◌, ◌||◌, leb, ltb, ◌==◌, if◌then◌else◌,
}

pub record Rectangle : Type 0 where
  pub x : ℕ
  pub y : ℕ
  pub width : ℕ
  pub height : ℕ

abbrev pub within : (start size at : ℕ) → Bool
within start size at = leb start at && ltb at (start + size)

-- Whether a pixel lies in a rectangle.
abbrev pub inside : Rectangle → ℕ × ℕ → Bool
inside q p = within q.x q.width p.0 && within q.y q.height p.1

pub record Cairo (R : Type 0) : Type 0 where
  pub create : R
  pub create_rectangle : Rectangle → R
  pub union_rectangle : R → Rectangle → R
  pub subtract : R → R → R
  pub get_extents : R → Rectangle

module _ {R : Type 0} (cairo : Cairo R) (monitor_geometry : ℕ → Rectangle) where
  -- The loop over the monitors before this one.
  unfoldable pub get_outside_region : (monitor : ℕ) → R
  get_outside_region zero = cairo.create
  get_outside_region (suc i) = cairo.union_rectangle (get_outside_region i) (monitor_geometry i)

  unfoldable pub update_geometry : (monitor : ℕ) → Rectangle
  update_geometry monitor = cairo.get_extents (
      cairo.subtract (cairo.create_rectangle (monitor_geometry monitor))
        (get_outside_region monitor))

-- What the window asks for, and what its X window was given.
pub record Place : Type 0 where
  pub monitor : ℕ
  pub geometry : Rectangle
  pub realized : Bool
  pub gdk_window : Rectangle
  -- gtk_widget_set_visible of the panel.
  pub panel_visible : Bool

-- `primary` is whether the X window is on the primary monitor.
unfoldable pub gs_window_move_resize_window : (primary move resize : Bool) → Place → Place
gs_window_move_resize_window primary move resize w =
    let g = w.geometry in
    let w =
      (if move && resize
        then record w { gdk_window = g }
        else if move
        then record w { gdk_window = record (w.gdk_window) { x = g.x; y = g.y } }
        else if resize
        then record w { gdk_window = record (w.gdk_window) { width = g.width; height = g.height } }
        else w) in
    record w { panel_visible = primary }

module _ {R : Type 0} (cairo : Cairo R) (monitor_geometry : ℕ → Rectangle) where
  -- The second part is the requisition.
  unfoldable pub gs_window_real_size_request : (primary : Bool) → Place → Place × (ℕ × ℕ)
  unfolding gs_window_move_resize_window
  gs_window_real_size_request primary w =
      let old = w.geometry in
      let new = update_geometry cairo monitor_geometry w.monitor in
      let w = record w { geometry = new } in
      let requisition : ℕ × ℕ = (new.width, new.height) in
      if not w.realized then (w, requisition) else (
        gs_window_move_resize_window primary (not (old.x == new.x) || not (old.y == new.y))
            (not (old.width == new.width) || not (old.height == new.height)) w,
        requisition,
      )
