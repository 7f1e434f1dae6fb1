-- ===== src/Json/Members.antt =====
-- `data[key] = value`, read back with `data.get`.
use trading_control.Prelude.{◌≡◌, refl, some, String, str_eq, if◌then◌else◌, arith, eq_iff}
use trading_control.Json.{Json, Fields, end, field, member, with_member}

module _ {W : Type 0} where
  pub member-with_member :
      (k j : String) (v : Json W) (fs : Fields W)
      → member j (with_member k v fs) ≡ (if str_eq k j then some v else member j fs)
  unfolding member with_member
  member-with_member k j v end = refl
  member-with_member k j v (field i w fs) =
      ground (arith, eq_iff k j, eq_iff i k, eq_iff i j, member-with_member k j v fs)
