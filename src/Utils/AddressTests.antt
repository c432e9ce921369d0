-- ===== src/Utils/AddressTests.antt =====
-- Runs of `validateIpAddress` of frontend/src/utils.js, and its theorems at concrete inputs.
use caronte.Prelude.{◌≡◌, refl, ◌↔◌, ◌⊎◌, true, false, text}
use caronte.Utils.Address.{validate_ip_address}
use caronte.Utils.Address.Quads.{IsDottedQuad, validate_ip_address-IsDottedQuad}
use caronte.Utils.Address.Groups.Shapes.{IsFull, IsShort}
use caronte.Utils.Address.Groups.Forms.{validate_ip_address-IsGrouped}

quad_runs :
    (validate_ip_address (text " 10.10.0.255 ") ≡ true)
    × (validate_ip_address (text "10.10.0.256") ≡ false)
    × (validate_ip_address (text "10.10.01.1") ≡ false)
    × (validate_ip_address (text "10.10.1") ≡ false)
unfolding validate_ip_address
quad_runs = (refl, refl, refl, refl)

group_runs :
    (validate_ip_address (text "fe80::1ff:fe23:4567:890a") ≡ true)
    × (validate_ip_address (text "::") ≡ true)
    × (validate_ip_address (text "::ffff:10.0.0.1") ≡ true)
    × (validate_ip_address (text "fe80::1%eth0") ≡ true)
    × (validate_ip_address (text "1:2:3:4:5:6:7") ≡ false)
    × (validate_ip_address (text "1::2::3") ≡ false)
unfolding validate_ip_address
group_runs = (refl, refl, refl, refl, refl, refl)

validate_ip_address-IsDottedQuad_example :
    (validate_ip_address (text " 10.10.0.255 ") ≡ true) ↔ IsDottedQuad (text " 10.10.0.255 ")
validate_ip_address-IsDottedQuad_example =
    validate_ip_address-IsDottedQuad (text " 10.10.0.255 ") refl

validate_ip_address-IsGrouped_example :
    (validate_ip_address (text "fe80::1ff:0:1") ≡ true)
    ↔ (IsFull (text "fe80::1ff:0:1") ⊎ IsShort (text "fe80::1ff:0:1"))
validate_ip_address-IsGrouped_example = validate_ip_address-IsGrouped (text "fe80::1ff:0:1") refl
