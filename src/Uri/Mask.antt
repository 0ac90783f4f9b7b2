-- ===== src/Uri/Mask.antt =====
-- The string for the log shows nothing of the password but whether there is one.
use mongodb_engine.Base.{◌≡◌, refl, Bytes, is_empty}
use mongodb_engine.Uri.Defs.{MongoUri}
use mongodb_engine.Uri.Print.{to_safe_string}

-- Two URIs that differ in nothing but the password are logged alike if both passwords are empty or
-- neither is.
pub to_safe_string_masks :
    (u : MongoUri) (p q : Bytes)
    → is_empty p ≡ is_empty q
    → to_safe_string (record u { password = p }) ≡ to_safe_string (record u { password = q })
unfolding to_safe_string
to_safe_string_masks u p q h = rw h refl
