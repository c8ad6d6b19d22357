-- ===== src/Console/Bounds/Edit.antt =====
-- kernel/console.c: the bounds of the commands that edit the screen.
use rhee_creatives_linux_v.Base.{
  ℕ, zero, suc, ◌-◌, ◌≡◌, true, ◌==◌, leb, update, arith, Bool-cases, inl, inr,
}
use rhee_creatives_linux_v.Console.{
  Screen, lines, columns, blank, sub32, address_of, scrup, scrdown, cr, del, csi_j, csi_k, csi_m,
  insert_char, insert_line, delete_char, delete_line, times, restore_cur,
}
use rhee_creatives_linux_v.Console.Cells.{
  in_video, fill-Spares, push_cells-Spares, pull_cells-Spares,
}
use rhee_creatives_linux_v.Console.Bounds.{
  InScreen, Safe, Safe-refl, Safe-trans, with_cells, at_place, with_parse, with_region, scrup-Safe,
  scrdown-Safe,
}

module _ (s : Screen) (v : InScreen s) where
  open v use {
    origin_ge, end_eq, end_le, x_le, y_lt, pos_eq, region, bottom_le, saved_x_le, saved_y_lt,
  }

  pub restore_cur-Safe : Safe s (restore_cur s)
  unfolding restore_cur
  restore_cur-Safe =
      at_place s v s.saved_x s.saved_y (address_of s.origin s.saved_x s.saved_y) saved_x_le
        saved_y_lt (omega (arith, origin_ge, end_eq, end_le, saved_x_le, saved_y_lt))

  pub cr-Safe : Safe s (cr s)
  unfolding cr
  cr-Safe = at_place s v 0 s.y _ (omega arith) y_lt (omega arith)

  pub csi_m-Safe : Safe s (csi_m s)
  unfolding csi_m
  csi_m-Safe = with_parse s v s.state s.npar s.par s.ques _

  pub csi_j-Safe : (par : ℕ) → Safe s (csi_j par s)
  unfolding csi_j
  csi_j-Safe par = elim (Bool-cases (par == 0)) [
    | inl below ↦
        rw below (with_cells s v _ (fill-Spares _ s.pos blank s.cell (omega arith) (omega arith)))
    | inr p ↦ elim (Bool-cases (par == 1)) [
      | inl above ↦
          rw (p, above)
            (with_cells s v _ (fill-Spares _ s.origin blank s.cell origin_ge (omega arith)))
      | inr q ↦ elim (Bool-cases (par == 2)) [
        | inl all ↦
            rw (p, q, all)
              (with_cells s v _ (fill-Spares 2000 s.origin blank s.cell origin_ge (omega arith)))
        | inr other ↦ rw (p, q, other) (Safe-refl s v)
      ]
    ]
  ]

  pub csi_k-Safe : (par : ℕ) → Safe s (csi_k par s)
  unfolding csi_k
  csi_k-Safe par = elim (Bool-cases (par == 0)) [
    | inl after ↦ elim (Bool-cases (leb columns s.x)) [
      | inl behind ↦ rw (after, behind) (Safe-refl s v)
      | inr inside ↦
          rw (after, inside)
            (with_cells s v _ (fill-Spares _ s.pos blank s.cell (omega arith) (ground arith)))
    ]
    | inr p ↦ elim (Bool-cases (par == 1)) [
      | inl before ↦
          rw (p, before)
            (with_cells s v _ (fill-Spares _ _ blank s.cell (omega arith) (omega arith)))
      | inr q ↦ elim (Bool-cases (par == 2)) [
        | inl all ↦
            rw (p, q, all)
              (with_cells s v _ (fill-Spares 80 _ blank s.cell (omega arith) (omega arith)))
        | inr other ↦ rw (p, q, other) (Safe-refl s v)
      ]
    ]
  ]

  pub insert_char-Safe : Safe s (insert_char s)
  unfolding insert_char
  insert_char-Safe =
      with_cells s v _
        (push_cells-Spares (columns - s.x) s.pos blank s.cell (omega arith) (omega arith))

  pub delete_char-Safe : Safe s (delete_char s)
  unfolding delete_char
  delete_char-Safe = elim (Bool-cases (leb columns s.x)) [
    | inl behind ↦ rw behind (Safe-refl s v)
    | inr inside ↦
        rw inside (with_cells s v _ (pull_cells-Spares _ s.pos s.cell (omega arith) (ground arith)))
  ]

  pub del-Safe : Safe s (del s)
  unfolding del
  del-Safe = elim (Bool-cases (s.x == 0)) [
    | inl first ↦ rw first (Safe-refl s v)
    | inr later ↦
        let low : in_video (sub32 s.pos 2) ≡ true = ground arith in
        let wiped = with_cells s v (update s.cell (sub32 s.pos 2) blank) (λ j out. ground arith) in
        rw later (
          Safe-trans s _ _ wiped
            (at_place _ wiped.ok (s.x - 1) s.y (sub32 s.pos 2) (ground arith) y_lt (ground arith)))
  ]

  -- A scroll of the lines from the cursor on, after which the region is the old one.
  from_cursor :
      (f : Screen → Screen)
      → ((t : Screen) → InScreen t → Safe t (f t))
      → Safe s
          (record (f (record s { top = s.y; bottom = lines })) { top = s.top; bottom = s.bottom })
  from_cursor f f-Safe =
      let set = with_region s v s.y lines y_lt (omega arith) in
      let done = f-Safe (record s { top = s.y; bottom = lines }) set.ok in
      Safe-trans s _ _ set
        (Safe-trans _ _ _ done (with_region _ done.ok s.top s.bottom region bottom_le))

  pub insert_line-Safe : Safe s (insert_line s)
  unfolding insert_line
  insert_line-Safe = from_cursor scrdown scrdown-Safe

  pub delete_line-Safe : Safe s (delete_line s)
  unfolding delete_line
  delete_line-Safe = from_cursor scrup scrup-Safe

pub times-Safe :
    (n : ℕ) (f : Screen → Screen) (s : Screen)
    → InScreen s
    → ((t : Screen) → InScreen t → Safe t (f t))
    → Safe s (times n f s)
unfolding times
times-Safe zero f s v f-Safe = Safe-refl s v
times-Safe (suc n) f s v f-Safe =
    let first = f-Safe s v in Safe-trans s (f s) _ first (times-Safe n f (f s) first.ok f-Safe)
