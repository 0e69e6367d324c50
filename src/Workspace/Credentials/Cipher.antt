-- ===== src/Workspace/Credentials/Cipher.antt =====
-- backend/credential_security.py: what is stored of a credential. Fernet and the json module are the
-- fields of an interface, with the documented laws: a decryption inverts an encryption under the
-- same key, whatever its time and its random bytes, and loads inverts dumps.
use Prim.Native.String.{◌++◌ as str_append, count}
use llm_evaluation_platform.Common.{
  ℕ, zero, suc, ◌-◌, String, ◌≡◌, refl, false, Option, none, some, leb, str_eq, if◌then◌else◌,
}

pub record CredentialPayload : Type 0 where
  pub api_key : String
  pub api_base : Option String

-- A field of a JSON object, and a document as the code looks at it.
pub data JsonField : Type 0 where
  missing json_null other_value : JsonField
  text : String → JsonField

pub data Document : Type 0 where
  malformed not_an_object : Document
  object : JsonField → JsonField → Document

abbrev pub field_of : Option String → JsonField
field_of none = json_null
field_of (some t) = text t

pub record CipherLibrary : Type 0 where
  pub encrypt_text : ℕ → String → String
  pub decrypt_text : String → Option String
  pub dumps : CredentialPayload → String
  -- The fields `api_key` and `api_base` of the document.
  pub loads : String → Document
  pub decrypt_text-encrypt_text : (n : ℕ) (s : String) → decrypt_text (encrypt_text n s) ≡ some s
  pub loads-dumps :
      (p : CredentialPayload) → loads (dumps p) ≡ object (text p.api_key) (field_of p.api_base)

-- CredentialDecryptionError, and the TypeError of a document that is no object.
pub data Decrypted : Type 0 where
  payload : CredentialPayload → Decrypted
  decryption_error type_error : Decrypted

-- The checks on the fields.
abbrev with_base : String → JsonField → Decrypted
with_base k missing = payload (record { api_key = k; api_base = none })
with_base k json_null = payload (record { api_key = k; api_base = none })
with_base k other_value = decryption_error
with_base k (text b) = payload (record { api_key = k; api_base = some b })

abbrev checked : Document → Decrypted
checked malformed = decryption_error
checked not_an_object = type_error
checked (object (text k) base) = if str_eq k "" then decryption_error else with_base k base
checked (object _ base) = decryption_error

module _ (l : CipherLibrary) where
  -- `n` is the time and the random bytes of the encryption.
  unfoldable pub encrypt : ℕ → CredentialPayload → String
  encrypt n p = l.encrypt_text n (l.dumps p)

  unfoldable pub decrypt : String → Decrypted
  decrypt t = elim (l.decrypt_text t) [ none ↦ decryption_error | some s ↦ checked (l.loads s) ]

  -- What is stored of a payload with a key decrypts to that payload, whatever the encryption drew.
  pub decrypt-encrypt :
      (n : ℕ) (p : CredentialPayload)
      → str_eq p.api_key "" ≡ false
      → decrypt (encrypt n p) ≡ payload p
  unfolding encrypt decrypt
  decrypt-encrypt n p h =
      rw (l.decrypt_text-encrypt_text n (l.dumps p), l.loads-dumps p, h, decrypt, encrypt)
        (with_base_of p.api_base)
    where
      with_base_of :
          (b : Option String)
          → with_base p.api_key (field_of b)
            ≡ payload (record { api_key = p.api_key; api_base = b })
      with_base_of none = refl
      with_base_of (some b) = refl

-- `api_key[-4:]`
abbrev drop_chars : ℕ → String → String
drop_chars zero s = s
drop_chars (suc n) String.[] = ""
drop_chars (suc n) (String.◌∷◌ c s) = drop_chars n s

unfoldable pub key_hint : String → String
key_hint api_key =
    str_append "••••"
      (if leb 4 (count api_key) then drop_chars (count api_key - 4) api_key else api_key)

hinted : key_hint "sk-12345" ≡ "••••2345"
unfolding key_hint
hinted = refl
