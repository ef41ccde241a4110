-- ===== src/Base.antt =====
-- Names that the components share: those of the libraries, passed on, and those of the children.
-- A Go string is a list of bytes here, as is a []byte.
mod Tests
mod Lists
mod Res
mod Dictionary
mod Int
mod Members
unfoldable pub use Tests.*
unfoldable pub use Lists.*
unfoldable pub use Res.*
unfoldable pub use Dictionary.*
unfoldable pub use Int.*
unfoldable pub use Members.*
pub use mathlib.Core.List.{Memᴰ}
pub use mathlib.Core.List.Memᴰ.{head, tail}
pub use Prim.Native.Nat.{ℕ, zero, suc, ◌+◌, ◌-◌, ◌*◌, ◌/◌, ◌%◌, ◌^◌, ◌≤◌, ◌<◌}
pub use mathlib.Core.Path.{◌≡◌, refl, sym, ap, subst, ◌∙◌, ◌≡⟨◌⟩◌, ◌∎}
pub use mathlib.Core.Logic.{◌≢◌, ◌↔◌, ◌⊎◌, inl, inr}
pub use mathlib.Core.Bool.{Bool, true, false, not, ◌&&◌, ◌||◌}
pub use mathlib.Core.Option.{Option, none, some}
pub use mathlib.Core.List.{List, [], ◌∷◌, ◌++◌, append_assoc, append-nil}
unfoldable pub use mathlib.Core.List.{map, reverse, flat_map}
pub use native.Mathlib.Omega.{arith}
