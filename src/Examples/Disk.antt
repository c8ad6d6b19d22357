-- ===== src/Examples/Disk.antt =====
-- fs/bitmap.c and fs/inode.c at a small device.
use rhee_creatives_linux_v.Base.{refl, none, some, true, false, if◌then◌else◌, ◌==◌, ltb, arith}
use rhee_creatives_linux_v.Zones.{Device, new_block, Node}
use rhee_creatives_linux_v.Zones.Alloc.{NewBlock, new_block-NewBlock}
use rhee_creatives_linux_v.Zones.Map.{Ready}
use rhee_creatives_linux_v.Zones.Blocks.{IsTree, Created, create_block-bmap}

-- The zones from 10 on; the first two are in use, and the second is read by two.
abbrev pub device : Device
device = record {
  mounted = true;
  s_firstdatazone = 10;
  s_nzones = 100;
  s_ninodes = 32;
  has_zmap = λ i. i == 0;
  has_imap = λ i. i == 0;
  zmap = λ j. ltb j 3;
  imap = λ j. ltb j 2;
  word = λ b i. 0;
  readable = λ b. true;
  users = λ b. if b == 11 then some 2 else none;
  disk_word = λ b i. 0;
  disk_readable = λ b. true;
}

-- A file whose double indirect block is zone 10.
abbrev file : Node
file = record {
  i_mode = 0o100644;
  i_size = 0;
  i_zone = λ k. if k == 8 then 10 else 0;
  i_dirt = false;
  i_mtime = 0;
  i_ctime = 0;
}

device-Ready : Ready device
device-Ready = record {
  here = refl;
  data_zone = omega arith;
  zero_set = refl;
  nzones_le = omega arith;
  idle = λ b low free. ground arith;
}

file-IsTree : IsTree file device
file-IsTree = record {
  single = λ ne. absurd (ne refl);
  double = λ _. ((omega arith, refl), refl);
  second = λ _ k ne. absurd (ne refl);
}

new_block-NewBlock_example : NewBlock device (new_block device)
new_block-NewBlock_example = new_block-NewBlock device refl (omega arith) refl

create_block-bmap_example : Created 7 1000 file device
create_block-bmap_example =
    create_block-bmap 7 1000 file device device-Ready file-IsTree (omega arith)
