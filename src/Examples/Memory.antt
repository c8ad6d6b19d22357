-- ===== src/Examples/Memory.antt =====
-- mm/memory.c and kernel/mktime.c at concrete inputs.
use rhee_creatives_linux_v.Base.{
  ℕ, ◌+◌, ◌-◌, ◌/◌, ◌≡◌, refl, ◌⊎◌, inl, some, if◌then◌else◌, ◌==◌, count, arith,
}
use rhee_creatives_linux_v.Base.Int.{pos}
use rhee_creatives_linux_v.Mktime.{kernel_mktime}
use rhee_creatives_linux_v.Mktime.Calendar.{
  Date, IsDate, seconds, days, days_of_years, days_of_months, tm_of, kernel_mktime-seconds,
}
use rhee_creatives_linux_v.Memory.{
  Mem, handled, killed, get_free_page, free_page, un_wp_page, do_no_page, free_pages, low_mem,
  high_memory, last_free,
}
use rhee_creatives_linux_v.Memory.Alloc.{
  Allocated, get_free_page-Allocated, free_page-get_free_page,
}
use rhee_creatives_linux_v.Memory.Write.{Faults, Private, un_wp_page-Private}
use rhee_creatives_linux_v.Memory.Missing.{HasTable, Mapped, do_no_page-Mapped}
use rhee_creatives_linux_v.Memory.Share.{copy_entries}
use rhee_creatives_linux_v.Memory.Share.Entries.{Shared, copy_entries-Shared}

-- The page with index 0 is a page table; its entry 0 and the entry 1 refer to the page with index
-- 1, which is shared by two. All other pages are free.
abbrev shared_mem : Mem
shared_mem = record {
  mem_map = λ i. if i == 0 then 1 else if i == 1 then 2 else 0;
  word = λ a.
      if a == 0
      then low_mem + 7
      else if a == low_mem / 4
      then low_mem + 4096 + 5
      else if a == low_mem / 4 + 1
      then low_mem + 4096 + 5
      else 0;
}

abbrev entry : ℕ
entry = low_mem / 4

shared_mem-Faults : Faults shared_mem entry
shared_mem-Faults = record {
  table = (omega arith, λ _. ground arith);
  page = (omega arith, λ _. ground arith);
  apart = refl;
  counts = λ j. ground arith;
}

un_wp_page-Private_example :
    ((m : Mem) × (un_wp_page entry shared_mem ≡ handled m) × Private shared_mem entry m)
    ⊎ ((un_wp_page entry shared_mem ≡ killed shared_mem) × (free_pages shared_mem ≡ 0))
un_wp_page-Private_example = un_wp_page-Private shared_mem entry shared_mem-Faults

copy_entries-Shared_example :
    Shared 2 entry (entry + 2048) shared_mem (copy_entries 2 entry (entry + 2048) shared_mem)
copy_entries-Shared_example =
    copy_entries-Shared 2 entry (entry + 2048) shared_mem (inl (omega arith))

-- The copy gets the highest page.
highest : (get_free_page shared_mem).0 ≡ high_memory - 4096
unfolding get_free_page last_free
highest = refl

get_free_page-Allocated_example :
    ((get_free_page shared_mem ≡ (0, shared_mem)) × (free_pages shared_mem ≡ 0))
    ⊎ ((i : ℕ) × Allocated shared_mem i (get_free_page shared_mem).0 (get_free_page shared_mem).1)
get_free_page-Allocated_example = get_free_page-Allocated shared_mem

free_page-get_free_page_example :
    (m : Mem) × (free_page (get_free_page shared_mem).0 (get_free_page shared_mem).1 ≡ some m)
    × ((j : ℕ) → m.mem_map j ≡ shared_mem.mem_map j)
free_page-get_free_page_example = free_page-get_free_page shared_mem (rw highest (omega arith))

-- A memory whose table is followed by a byte that is not 0.
abbrev full_mem : Mem
full_mem = record { mem_map = λ i. 3; word = λ a. 0 }

-- One page is free.
abbrev scarce_mem : Mem
scarce_mem = record { mem_map = λ i. if i == 7 then 0 else 1; word = λ a. 0 }

one_free : free_pages scarce_mem ≡ 1
unfolding free_pages count
one_free = refl

shared_mem-HasTable : HasTable shared_mem 0x5000
shared_mem-HasTable = λ _. ((omega arith, λ _. omega arith), omega arith)

do_no_page-Mapped_example :
    ((page : ℕ) × (m : Mem) × (do_no_page 0x5000 shared_mem ≡ handled m)
      × Mapped shared_mem 0x5000 page m)
    ⊎ ((m : Mem) × (do_no_page 0x5000 shared_mem ≡ killed m) × (free_pages m ≡ 0))
do_no_page-Mapped_example = do_no_page-Mapped shared_mem 0x5000 shared_mem-HasTable

abbrev leap_day : Date
leap_day = record { year = 2000; mon = 1; mday = 29; hours = 12; mins = 30; secs = 5 }

leap_day-IsDate : IsDate leap_day
leap_day-IsDate = record {
  from_1970 = omega arith;
  mon_lt = omega arith;
  mday_pos = omega arith;
  mday_le = omega arith;
}

seconds-leap_day : seconds leap_day ≡ 951827405
unfolding seconds days days_of_years days_of_months
seconds-leap_day = refl

kernel_mktime-seconds_example : kernel_mktime (tm_of leap_day) ≡ some (pos (seconds leap_day))
kernel_mktime-seconds_example =
    kernel_mktime-seconds leap_day leap_day-IsDate (rw seconds-leap_day (omega arith))
