-- ===== src/Forms/Storage.antt =====
-- The limit of a storage (web/src/components/devops/StorageModal.js).
use next_terminal.Base.{ℕ, suc, zero, ◌*◌, ◌≡◌, ◌↔◌, ◌<◌, Bool, true, false, arith}

-- The entries of the menu beside the limit.
pub data Size : Type 0 where
  bytes kilo mega giga tera peta exa zetta yotta : Size

-- What `onOk` makes of the limit: the chain of factors of each case of its switch.
unfoldable pub limit_of : Size → ℕ → ℕ
limit_of bytes n = n
limit_of kilo n = n * 1024
limit_of mega n = n * 1024 * 1024
limit_of giga n = n * 1024 * 1024 * 1024
limit_of tera n = n * 1024 * 1024 * 1024 * 1024 * 1024
limit_of peta n = n
limit_of exa n = n * 1024 * 1024 * 1024 * 1024 * 1024 * 1024
limit_of zetta n = n * 1024 * 1024 * 1024 * 1024 * 1024 * 1024 * 1024
limit_of yotta n = n * 1024 * 1024 * 1024 * 1024 * 1024 * 1024 * 1024 * 1024

-- The place of a unit in `unitArr` of `renderSize`, which names 1024 to that power.
abbrev pub place : Size → ℕ
place bytes = 0
place kilo = 1
place mega = 2
place giga = 3
place tera = 4
place peta = 5
place exa = 6
place zetta = 7
place yotta = 8

abbrev pub times_1024 : ℕ → ℕ → ℕ
times_1024 zero n = n
times_1024 (suc k) n = times_1024 k (n * 1024)

abbrev pub is_kept : Size → Bool
is_kept tera = false
is_kept peta = false
is_kept _ = true

-- For a limit above 0, the form of a storage hands over the size that the unit names, by powers of
-- 1024, exactly if the unit is neither TB nor PB.
pub limit_of_iff :
    (size : Size) (n : ℕ)
    → 0 < n
    → (limit_of size n ≡ times_1024 (place size) n) ↔ (is_kept size ≡ true)
unfolding limit_of
limit_of_iff bytes n p = ground arith
limit_of_iff kilo n p = ground arith
limit_of_iff mega n p = ground arith
limit_of_iff giga n p = ground arith
limit_of_iff tera n p = ground arith
limit_of_iff peta n p = ground arith
limit_of_iff exa n p = ground arith
limit_of_iff zetta n p = ground arith
limit_of_iff yotta n p = ground arith
