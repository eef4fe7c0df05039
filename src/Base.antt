-- ===== src/Base.antt =====
-- The names that the other modules share: the libraries', passed on, and those of the children.
mod Tests
mod Lists
mod Int64
pub use Tests.*
pub use Lists.*
pub use Int64.*
pub use Prim.Native.Nat.{ℕ, zero, suc, ◌+◌, ◌-◌, ◌*◌, ◌/◌, ◌%◌, ◌^◌, ◌≤◌, ◌<◌}
pub use mathlib.Core.Path.{◌≡◌, refl, sym, ap, ◌∙◌}
pub use mathlib.Core.Logic.{◌≢◌, ◌↔◌, ◌⊎◌, inl, inr}
pub use mathlib.Core.Bool.{Bool, true, false, not, ◌&&◌, ◌||◌}
pub use mathlib.Core.Option.{Option, none, some}
pub use mathlib.Core.List.{List, [], ◌∷◌, ◌++◌, map, reverse, append-nil, append_assoc}
pub use native.Mathlib.Omega.{arith}

-- `std::atomic<std::size_t>`: `fetch_add` and `fetch_sub` wrap at 2 ^ 64.
abbrev pub size_mod : ℕ
size_mod = 2 ^ 64

abbrev pub fetch_add : ℕ → ℕ → ℕ
fetch_add a n = (a + n) % size_mod

abbrev pub fetch_sub : ℕ → ℕ → ℕ
fetch_sub a n = (a + size_mod - n) % size_mod
