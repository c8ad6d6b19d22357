-- ===== src/Console/Bounds.antt =====
-- kernel/console.c: the cursor stays on the screen, and only video memory is written.
pub mod Edit
pub mod Machine
use rhee_creatives_linux_v.Base.{
  ℕ, zero, suc, ◌+◌, ◌-◌, ◌*◌, ◌/◌, ◌%◌, ◌^◌, ◌≤◌, ◌<◌, ◌≡◌, ◌≢◌, refl, sym, ◌∙◌, ap, Bool, true,
  false, ◌&&◌, ◌||◌, ◌==◌, ltb, leb, if◌then◌else◌, update, min, arith, Bool-cases, inl, inr,
}
use rhee_creatives_linux_v.Console.{
  Screen, screen_start, screen_end, lines, columns, blank, add32, sub32, address_of, gotoxy,
  longs_of, moved_lines, scrup, scrdown, lf, ri, cr, del, csi_j, csi_k, csi_m, insert_char,
  insert_line, delete_char, delete_line, times, csi_at, csi_l, csi_p, csi_delete, limited, save_cur,
  restore_cur, fill, copy_up, copy_down, fill_down,
}
use rhee_creatives_linux_v.Console.Cells.{
  in_video, Spares, fill-Spares, fill_down-Spares, copy_up-Spares, copy_down-Spares,
  push_cells-Spares, pull_cells-Spares,
}

-- The screen is a part of video memory, the cursor on it or just behind a line, and the region is
-- not empty.
pub record InScreen (s : Screen) : Type 0 where
  pub origin_ge : screen_start ≤ s.origin
  pub end_eq : s.scr_end ≡ s.origin + 4000
  pub end_le : s.scr_end ≤ screen_end
  pub x_le : s.x ≤ columns
  pub y_lt : s.y < lines
  pub pos_eq : s.pos ≡ s.origin + 2 * (s.y * columns + s.x)
  pub region : s.top < s.bottom
  pub bottom_le : s.bottom ≤ lines
  pub saved_x_le : s.saved_x ≤ columns
  pub saved_y_lt : s.saved_y < lines

pub record Safe (s s' : Screen) : Type 0 where
  pub ok : InScreen s'
  pub spared : Spares s.cell s'.cell

pub Safe-refl : (s : Screen) → InScreen s → Safe s s
Safe-refl s v = record { ok = v; spared = λ j out. refl }

pub Safe-trans : (r s t : Screen) → Safe r s → Safe s t → Safe r t
Safe-trans r s t p q = record { ok = q.ok; spared = λ j out. q.spared j out ∙ p.spared j out }

pub Spares-trans : {k m n : ℕ → ℕ} → Spares k m → Spares m n → Spares k n
Spares-trans p q j out = q j out ∙ p j out

module _ (s : Screen) (v : InScreen s) where
  open v use {
    origin_ge, end_eq, end_le, x_le, y_lt, pos_eq, region, bottom_le, saved_x_le, saved_y_lt,
  }

  pub with_cells : (m : ℕ → ℕ) → Spares s.cell m → Safe s (record s { cell = m })
  with_cells m same = record {
    ok = record {
      origin_ge = origin_ge;
      end_eq = end_eq;
      end_le = end_le;
      x_le = x_le;
      y_lt = y_lt;
      pos_eq = pos_eq;
      region = region;
      bottom_le = bottom_le;
      saved_x_le = saved_x_le;
      saved_y_lt = saved_y_lt;
    };
    spared = same;
  }

  -- The cursor at another place.
  pub at_place :
      (x' y' p : ℕ)
      → x' ≤ columns
      → y' < lines
      → p ≡ s.origin + 2 * (y' * columns + x')
      → Safe s (record s { x = x'; y = y'; pos = p })
  at_place x' y' p x_ok y_ok p_ok = record {
    ok = record {
      origin_ge = origin_ge;
      end_eq = end_eq;
      end_le = end_le;
      x_le = x_ok;
      y_lt = y_ok;
      pos_eq = p_ok;
      region = region;
      bottom_le = bottom_le;
      saved_x_le = saved_x_le;
      saved_y_lt = saved_y_lt;
    };
    spared = λ j out. refl;
  }

  pub gotoxy-Safe : (new_x new_y : ℕ) → Safe s (gotoxy new_x new_y s)
  unfolding gotoxy
  gotoxy-Safe new_x new_y = elim (Bool-cases (leb columns new_x || leb lines new_y)) [
    | inl outside ↦ rw outside (Safe-refl s v)
    | inr inside ↦ rw inside (
        at_place new_x new_y (address_of s.origin new_x new_y) (ground arith) (ground arith)
          (ground arith))
  ]

  -- Another region.
  pub with_region : (t b : ℕ) → t < b → b ≤ lines → Safe s (record s { top = t; bottom = b })
  with_region t b some_lines inside = record {
    ok = record {
      origin_ge = origin_ge;
      end_eq = end_eq;
      end_le = end_le;
      x_le = x_le;
      y_lt = y_lt;
      pos_eq = pos_eq;
      region = some_lines;
      bottom_le = inside;
      saved_x_le = saved_x_le;
      saved_y_lt = saved_y_lt;
    };
    spared = λ j out. refl;
  }

  -- The screen at another place of video memory.
  at_origin :
      (o e p : ℕ) (m : ℕ → ℕ)
      → screen_start ≤ o
      → e ≡ o + 4000
      → e ≤ screen_end
      → p ≡ o + 2 * (s.y * columns + s.x)
      → Spares s.cell m
      → Safe s (record s { origin = o; scr_end = e; pos = p; cell = m })
  at_origin o e p m o_ok e_eq e_ok p_ok same = record {
    ok = record {
      origin_ge = o_ok;
      end_eq = e_eq;
      end_le = e_ok;
      x_le = x_le;
      y_lt = y_lt;
      pos_eq = p_ok;
      region = region;
      bottom_le = bottom_le;
      saved_x_le = saved_x_le;
      saved_y_lt = saved_y_lt;
    };
    spared = same;
  }

  moved_longs : longs_of (moved_lines s) ≡ (s.bottom - s.top - 1) * 40
  moved_longs = omega (arith, region, bottom_le)

  pub scrup-Safe : Safe s (scrup s)
  unfolding scrup
  scrup-Safe = elim (Bool-cases (s.top == 0 && s.bottom == lines)) [
    | inl whole ↦ elim (Bool-cases (ltb screen_end (add32 s.scr_end (2 * columns)))) [
      | inl back ↦
          rw (whole, back)
            (at_origin screen_start _ _ _ (omega arith) (omega arith) (omega arith) (omega arith) (
              Spares-trans (copy_up-Spares 960 screen_start _ s.cell (omega arith) (omega arith))
                (fill-Spares columns 757504 blank _ (omega arith) (omega arith))))
      | inr on ↦
          rw (whole, on)
            (at_origin _ _ _ _ (ground arith) (ground arith) (ground arith) (ground arith)
              (fill-Spares columns _ blank s.cell (ground arith) (ground arith)))
    ]
    | inr part ↦
        let moved = moved_longs in
        rw part (
          with_cells _ (
            Spares-trans
              (copy_up-Spares (longs_of (moved_lines s)) _ _ s.cell (ground (arith, moved))
                (ground (arith, moved)))
              (fill-Spares columns _ blank _ (ground (arith, moved)) (ground (arith, moved)))))
  ]

  pub scrdown-Safe : Safe s (scrdown s)
  unfolding scrdown
  scrdown-Safe =
      let moved = moved_longs in
      with_cells _ (
        Spares-trans
          (copy_down-Spares (longs_of (moved_lines s)) _ _ s.cell (ground (arith, moved))
            (ground (arith, moved)))
          (fill_down-Spares columns _ blank _ (ground (arith, moved)) (ground (arith, moved))))

  pub lf-Safe : Safe s (lf s)
  unfolding lf
  lf-Safe = elim (Bool-cases (ltb (s.y + 1) s.bottom)) [
    | inl below ↦ rw below (at_place s.x (s.y + 1) _ x_le (ground arith) (ground arith))
    | inr last ↦ rw last scrup-Safe
  ]

  pub ri-Safe : Safe s (ri s)
  unfolding ri
  ri-Safe = elim (Bool-cases (ltb s.top s.y)) [
    | inl above ↦ rw above (at_place s.x (s.y - 1) _ x_le (ground arith) (ground arith))
    | inr first ↦ rw first scrdown-Safe
  ]

  pub with_parse :
      (state npar : ℕ) (par : ℕ → ℕ) (ques : Bool) (attr : ℕ)
      → Safe s (record s { state = state; npar = npar; par = par; ques = ques; attr = attr })
  with_parse state npar par ques attr = record {
    ok = record {
      origin_ge = origin_ge;
      end_eq = end_eq;
      end_le = end_le;
      x_le = x_le;
      y_lt = y_lt;
      pos_eq = pos_eq;
      region = region;
      bottom_le = bottom_le;
      saved_x_le = saved_x_le;
      saved_y_lt = saved_y_lt;
    };
    spared = λ j out. refl;
  }

  pub save_cur-Safe : Safe s (save_cur s)
  unfolding save_cur
  save_cur-Safe = record {
    ok = record {
      origin_ge = origin_ge;
      end_eq = end_eq;
      end_le = end_le;
      x_le = x_le;
      y_lt = y_lt;
      pos_eq = pos_eq;
      region = region;
      bottom_le = bottom_le;
      saved_x_le = x_le;
      saved_y_lt = y_lt;
    };
    spared = λ j out. refl;
  }
