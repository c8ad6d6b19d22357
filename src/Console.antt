-- ===== src/Console.antt =====
-- kernel/console.c: the screen. `cell` is the word of video memory at an even address; the ports of
-- the video controller are left out.
pub mod Write
pub mod Cells
pub mod Bounds
use rhee_creatives_linux_v.Base.{
  ℕ, zero, suc, ◌+◌, ◌-◌, ◌*◌, ◌/◌, ◌%◌, ◌^◌, Bool, true, false, ◌&&◌, ◌||◌, not, ◌==◌, ltb, leb,
  if◌then◌else◌, update, min,
}

abbrev pub screen_start : ℕ
screen_start = 0xb8000

abbrev pub screen_end : ℕ
screen_end = 0xc0000

abbrev pub lines : ℕ
lines = 25

abbrev pub columns : ℕ
columns = 80

-- A space in the usual colours.
abbrev pub blank : ℕ
blank = 0x0720

pub record Screen : Type 0 where
  pub origin : ℕ
  pub scr_end : ℕ
  pub pos : ℕ
  pub x : ℕ
  pub y : ℕ
  pub top : ℕ
  pub bottom : ℕ
  pub state : ℕ
  pub npar : ℕ
  pub par : ℕ → ℕ
  pub ques : Bool
  pub attr : ℕ
  pub saved_x : ℕ
  pub saved_y : ℕ
  pub cell : ℕ → ℕ

abbrev pub add32 : ℕ → ℕ → ℕ
add32 a b = (a + b) % 2 ^ 32

abbrev pub sub32 : ℕ → ℕ → ℕ
sub32 a b = (a + 2 ^ 32 - b) % 2 ^ 32

-- `origin+((y*columns+x)<<1)`.
abbrev pub address_of : ℕ → ℕ → ℕ → ℕ
address_of origin x y = (origin + 2 * (y * columns + x)) % 2 ^ 32

unfoldable pub gotoxy : ℕ → ℕ → Screen → Screen
gotoxy new_x new_y s =
    if leb columns new_x || leb lines new_y
    then s
    else record s { x = new_x; y = new_y; pos = address_of s.origin new_x new_y }

-- `rep stosw`: `n` words from the address `a` on, upwards and downwards.
unfoldable pub fill : ℕ → ℕ → ℕ → (ℕ → ℕ) → ℕ → ℕ
fill zero a v m = m
fill (suc n) a v m = fill n (add32 a 2) v (update m a v)

unfoldable pub fill_down : ℕ → ℕ → ℕ → (ℕ → ℕ) → ℕ → ℕ
fill_down zero a v m = m
fill_down (suc n) a v m = fill_down n (sub32 a 2) v (update m a v)

-- One `movsl`.
abbrev pub move_long : ℕ → ℕ → (ℕ → ℕ) → ℕ → ℕ
move_long dst src m = update (update m dst (m src)) (dst + 2) (m (src + 2))

-- `rep movsl` of `n` long words, upwards and downwards.
unfoldable pub copy_up : ℕ → ℕ → ℕ → (ℕ → ℕ) → ℕ → ℕ
copy_up zero dst src m = m
copy_up (suc n) dst src m = copy_up n (add32 dst 4) (add32 src 4) (move_long dst src m)

unfoldable pub copy_down : ℕ → ℕ → ℕ → (ℕ → ℕ) → ℕ → ℕ
copy_down zero dst src m = m
copy_down (suc n) dst src m = copy_down n (sub32 dst 4) (sub32 src 4) (move_long dst src m)

-- The long words of `n` lines.
abbrev pub longs_of : ℕ → ℕ
longs_of n = n * columns % 2 ^ 32 / 2

-- The lines of the region but one.
abbrev pub moved_lines : Screen → ℕ
moved_lines s = sub32 (sub32 s.bottom s.top) 1

unfoldable pub scrup : Screen → Screen
scrup s =
    let origin' = add32 s.origin (2 * columns) in
    let pos' = add32 s.pos (2 * columns) in
    let end' = add32 s.scr_end (2 * columns) in
    let rows = longs_of (lines - 1) in
    let start = add32 s.origin (2 * columns * s.top) in
    let moved = longs_of (moved_lines s) in
    if s.top == 0 && s.bottom == lines
    then if ltb screen_end end'
      then record s {
        origin = screen_start;
        pos = sub32 pos' (sub32 origin' screen_start);
        scr_end = sub32 end' (sub32 origin' screen_start);
        cell =
            fill columns (add32 screen_start (4 * rows)) blank
              (copy_up rows screen_start origin' s.cell);
      }
      else record s {
        origin = origin';
        pos = pos';
        scr_end = end';
        cell = fill (columns / 2 * 2) (sub32 end' (2 * columns)) blank s.cell;
      }
    else record s {
      cell =
          fill columns (add32 start (4 * moved)) blank
            (copy_up moved start (add32 s.origin (2 * columns * (s.top + 1))) s.cell);
    }

unfoldable pub scrdown : Screen → Screen
scrdown s =
    let moved = longs_of (moved_lines s) in
    let dst = sub32 (add32 s.origin (2 * columns * s.bottom)) 4 in
    let src = sub32 (add32 s.origin (2 * columns * sub32 s.bottom 1)) 4 in
    record s {
      cell =
          fill_down columns (add32 (sub32 dst (4 * moved)) 2) blank
            (copy_down moved dst src s.cell);
    }

unfoldable pub lf : Screen → Screen
lf s =
    if ltb (s.y + 1) s.bottom
    then record s { y = s.y + 1; pos = add32 s.pos (2 * columns) }
    else scrup s

unfoldable pub ri : Screen → Screen
ri s =
    if ltb s.top s.y then record s { y = s.y - 1; pos = sub32 s.pos (2 * columns) } else scrdown s

unfoldable pub cr : Screen → Screen
cr s = record s { pos = sub32 s.pos (2 * s.x); x = 0 }

unfoldable pub del : Screen → Screen
del s =
    if s.x == 0
    then s
    else record s { pos = sub32 s.pos 2; x = s.x - 1; cell = update s.cell (sub32 s.pos 2) blank }

unfoldable pub csi_j : ℕ → Screen → Screen
csi_j par s =
    if par == 0
    then record s { cell = fill (sub32 s.scr_end s.pos / 2) s.pos blank s.cell }
    else if par == 1
    then record s { cell = fill (sub32 s.pos s.origin / 2) s.origin blank s.cell }
    else if par == 2
    then record s { cell = fill (columns * lines) s.origin blank s.cell }
    else s

unfoldable pub csi_k : ℕ → Screen → Screen
csi_k par s =
    if par == 0
    then if leb columns s.x then s else record s { cell = fill (columns - s.x) s.pos blank s.cell }
    else if par == 1
    then record s { cell = fill (min s.x columns) (sub32 s.pos (2 * s.x)) blank s.cell }
    else if par == 2
    then record s { cell = fill columns (sub32 s.pos (2 * s.x)) blank s.cell }
    else s

abbrev pub attr_of : ℕ → ℕ → ℕ
attr_of par attr =
    if par == 0
    then 0x07
    else if par == 1
    then 0x0f
    else if par == 4
    then 0x0f
    else if par == 7
    then 0x70
    else if par == 27
    then 0x07
    else attr

-- The parameters from the `i`-th on, `k` of them.
unfoldable pub take_attrs : ℕ → ℕ → (ℕ → ℕ) → ℕ → ℕ
take_attrs zero i par attr = attr
take_attrs (suc k) i par attr = take_attrs k (i + 1) par (attr_of (par i) attr)

unfoldable pub csi_m : Screen → Screen
csi_m s = record s { attr = take_attrs (s.npar + 1) 0 s.par s.attr }

-- The words from `p` on move up by one, for `n` words.
unfoldable pub push_cells : ℕ → ℕ → ℕ → (ℕ → ℕ) → ℕ → ℕ
push_cells zero p old m = m
push_cells (suc n) p old m = push_cells n (add32 p 2) (m p) (update m p old)

unfoldable pub insert_char : Screen → Screen
insert_char s = record s { cell = push_cells (columns - s.x) s.pos blank s.cell }

unfoldable pub insert_line : Screen → Screen
insert_line s = record (scrdown (record s { top = s.y; bottom = lines })) {
  top = s.top;
  bottom = s.bottom;
}

-- The words after `p` move down by one, for `n` words, and the last is blank.
unfoldable pub pull_cells : ℕ → ℕ → (ℕ → ℕ) → ℕ → ℕ
pull_cells zero p m = update m p blank
pull_cells (suc n) p m = pull_cells n (add32 p 2) (update m p (m (add32 p 2)))

unfoldable pub delete_char : Screen → Screen
delete_char s =
    if leb columns s.x then s else record s { cell = pull_cells (columns - s.x - 1) s.pos s.cell }

unfoldable pub delete_line : Screen → Screen
delete_line s = record (scrup (record s { top = s.y; bottom = lines })) {
  top = s.top;
  bottom = s.bottom;
}

unfoldable pub times : ℕ → (Screen → Screen) → Screen → Screen
times zero f s = s
times (suc n) f s = times n f (f s)

-- The number of times for a parameter `nr` and a bound.
abbrev pub limited : ℕ → ℕ → ℕ
limited nr most = if ltb most nr then most else if nr == 0 then 1 else nr

unfoldable pub csi_at : ℕ → Screen → Screen
csi_at nr s = times (limited nr columns) insert_char s

unfoldable pub csi_l : ℕ → Screen → Screen
csi_l nr s = times (limited nr lines) insert_line s

unfoldable pub csi_p : ℕ → Screen → Screen
csi_p nr s = times (limited nr columns) delete_char s

-- `csi_M`.
unfoldable pub csi_delete : ℕ → Screen → Screen
csi_delete nr s = times (limited nr lines) delete_line s

unfoldable pub save_cur : Screen → Screen
save_cur s = record s { saved_x = s.x; saved_y = s.y }

unfoldable pub restore_cur : Screen → Screen
restore_cur s = record s {
  x = s.saved_x;
  y = s.saved_y;
  pos = address_of s.origin s.saved_x s.saved_y;
}
