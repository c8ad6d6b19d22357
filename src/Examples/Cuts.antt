-- ===== src/Examples/Cuts.antt =====
-- fs/truncate.c at a small device.
use rhee_creatives_linux_v.Base.{
  ◌≡◌, refl, sym, subst, true, false, none, ◌&&◌, [], ◌∷◌, if◌then◌else◌, ◌==◌, ltb, arith,
}
use rhee_creatives_linux_v.Zones.{Device, Node}
use rhee_creatives_linux_v.Truncate.Freed.{Owned}
use rhee_creatives_linux_v.Truncate.Lists.{list_words}
use rhee_creatives_linux_v.Truncate.Whole.{file_zones, direct_zones, Truncated, truncate-Truncated}

-- The zones 10 to 15 are in use; the block 13 lists the zone 14, and the block 15 the block 13.
abbrev listing : Device
listing = record {
  mounted = true;
  s_firstdatazone = 10;
  s_nzones = 100;
  s_ninodes = 32;
  has_zmap = λ i. i == 0;
  has_imap = λ i. i == 0;
  zmap = λ j. ltb j 7;
  imap = λ j. ltb j 2;
  word = λ b i. if (b == 13) && (i == 0) then 14 else if (b == 15) && (i == 511) then 13 else 0;
  readable = λ b. true;
  users = λ b. none;
  disk_word = λ b i. 0;
  disk_readable = λ b. true;
}

-- The first zone is 12, and the double indirect block is 15.
abbrev long_file : Node
long_file = record {
  i_mode = 0o100644;
  i_size = 400000;
  i_zone = λ k. if k == 0 then 12 else if k == 8 then 15 else 0;
  i_dirt = false;
  i_mtime = 0;
  i_ctime = 0;
}

long_file-zones : file_zones long_file listing ≡ 12 ∷ 14 ∷ 13 ∷ 15 ∷ []
unfolding direct_zones list_words
long_file-zones = refl

long_file-Owned : Owned (12 ∷ 14 ∷ 13 ∷ 15 ∷ []) listing
long_file-Owned = record {
  mounted = refl;
  distinct = (refl, (refl, (refl, (refl, tt))));
  low = λ b h. ground arith;
  high = λ b h. ground arith;
  present = λ b h. ground arith;
  marked = λ b h. ground arith;
  idle = λ b h. refl;
}

truncate-Truncated_example : Truncated 1000 long_file listing
truncate-Truncated_example =
    truncate-Truncated 1000 long_file listing refl
      (subst (λ l. Owned l listing) (sym long_file-zones) long_file-Owned)
