-- ===== src/En50221/Asn1/Runs.antt =====
-- Concrete length fields.
use dvb_apps.Common.{◌≡◌, refl, [], ◌∷◌, ok}
use dvb_apps.En50221.Asn1.{asn_1_decode, asn_1_encode, write}

encoded : asn_1_encode 0x1234 (0 ∷ 0 ∷ 0 ∷ 7 ∷ []) 3 ≡ ok (0x82 ∷ 0x12 ∷ 0x34 ∷ 7 ∷ [], 3)
unfolding asn_1_encode write
encoded = refl

decoded : asn_1_decode (0x82 ∷ 0x12 ∷ 0x34 ∷ 7 ∷ []) 4 ≡ ok (0x1234, 3)
unfolding asn_1_decode
decoded = refl
