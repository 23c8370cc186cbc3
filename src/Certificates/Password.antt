-- ===== src/Certificates/Password.antt =====
-- What the worker stores as the password of the truststore.
use cain.Prelude.{◌≡◌, ◌≢◌, refl, ap, some, [], arith, length}
use cain.Go.Text.{GoString, text, str_eq}
use cain.Go.Maps.{lookup}
use cain.Go.Base64.{encode}
use cain.Go.Base64.Lengths.{encoded-longer}
use cain.Go.Base64.RoundTrip.{decode, decode-encode, AreBytes}
use cain.Secrets.Creator.{new_secret}
use cain.Certificates.Creator.{Info, password_request}

encode-ne : (s : GoString) → s ≢ [] → encode s ≢ s
encode-ne s h e = let longer = encoded-longer s h in let same = ap length e in absurd (omega arith)

-- The secret that the worker asks for holds, under the key `password`, not the truststore password but
-- its base64 text: decoding gives the password back, and the two differ. The password is not empty.
pub stored_password :
    (info : Info)
    → AreBytes info.truststore_password
    → info.truststore_password ≢ []
    → (stored : GoString) × (lookup (text "password") (new_secret (password_request info)).contents
        ≡ some stored)
      × (decode stored ≡ info.truststore_password)
      × (stored ≢ info.truststore_password)
unfolding new_secret password_request lookup str_eq text
stored_password info bytes given = (
  encode info.truststore_password,
  refl,
  decode-encode info.truststore_password bytes,
  encode-ne info.truststore_password given,
)
