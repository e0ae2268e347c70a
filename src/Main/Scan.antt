-- ===== src/Main/Scan.antt =====
-- linux/DtaDevOS.cpp: the names of the disks, and the scan of all of them. What is printed is not modelled.
use sedutil.Prelude.{
  ℕ, Bool, true, false, not, ◌&&◌, ◌||◌, List, [], ◌∷◌, ◌++◌, codes, take, drop, ltb, ◌==◌,
  if◌then◌else◌,
}
use sedutil.Outcome.{Outcome, done, ◌>>=◌}
use sedutil.Device.{opal2}
use sedutil.Opal.Users.{begins_with, is_digit}
use sedutil.Main.Open.{Machine, new_device, init_os}

abbrev is_lower : ℕ → Bool
is_lower c = not (ltb c 97) && ltb c 123

abbrev one : (ℕ → Bool) → List ℕ → Bool
one p (c ∷ []) = p c
one p _ = false

abbrev two : (ℕ → Bool) → List ℕ → Bool
two p (c ∷ d ∷ []) = p c && p d
two p _ = false

-- `fnmatch` with one of the patterns sd[a-z], nvme[0-9] and nvme[0-9][0-9]
unfoldable pub is_disk_name : List ℕ → Bool
is_disk_name name =
    (begins_with (codes "sd") name && one is_lower (drop 2 name))
    || (begins_with (codes "nvme") name
        && (one is_digit (drop 4 name) || two is_digit (drop 4 name)))

-- `<=` of strings
unfoldable pub not_after : List ℕ → List ℕ → Bool
not_after [] other = true
not_after (a ∷ name) [] = false
not_after (a ∷ name) (b ∷ other) = ltb a b || ((a == b) && not_after name other)

-- `std::sort`, as an insertion sort
unfoldable pub insert_name : List ℕ → List (List ℕ) → List (List ℕ)
insert_name name [] = name ∷ []
insert_name name (other ∷ names) =
    let rest = insert_name name names in
    if not_after name other then name ∷ other ∷ names else other ∷ rest

unfoldable pub sort_names : List (List ℕ) → List (List ℕ)
sort_names [] = []
sort_names (name ∷ names) = insert_name name (sort_names names)

unfoldable pub disk_names : List (List ℕ) → List (List ℕ)
disk_names [] = []
disk_names (name ∷ names) =
    let rest = disk_names names in if is_disk_name name then name ∷ rest else rest

-- The vector `devices`.
unfoldable pub devices : Machine → List (List ℕ)
unfolding sort_names disk_names
devices machine = sort_names (disk_names machine.entries)

-- snprintf(devname, 23, "/dev/%s", ...)
abbrev pub devref : List ℕ → List ℕ
devref name = take 22 (codes "/dev/" ++ name)

-- Every disk is opened in turn, as a new object.
unfoldable pub open_all : Machine → List (List ℕ) → Outcome (Unit {0})
open_all machine [] = done tt
open_all machine (name ∷ names) =
    let rest = open_all machine names in
    init_os machine (devref name) (new_device opal2 []) >>= λ opened. rest

-- `DtaDevOS::diskScan`
unfoldable pub disk_scan : Machine → Outcome ℕ
disk_scan machine = open_all machine (devices machine) >>= λ opened. done 0
