-- ===== src/Tests/Keys.antt =====
-- The key of an owner.
use dalikamata.Prelude.{◌≡◌, refl, ok}
use dalikamata.Query.OwnerKey.{owner_key, split_owner_key, split_owner_key-owner_key}

split_owner_key-owner_key_example : split_owner_key (owner_key "red" "shop") ≡ ok ("red", "shop")
split_owner_key-owner_key_example = split_owner_key-owner_key "red" "shop" refl
