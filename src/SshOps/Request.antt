-- ===== src/SshOps/Request.antt =====
-- The request for a connection (sshops/validation.go).
--
-- `trim_space` and `replace_all` are the functions of package strings.
use text.Mathlib.Text.{◌==◌ as str_eq}
use mizu_panel.Prelude.{
  ℕ, ◌≤◌, ◌≡◌, refl, String, Bool, true, false, not, ◌&&◌, ◌||◌, List, [], ◌∷◌, arith, ltb, ◌==◌,
  if◌then◌else◌,
}
use mizu_panel.Prelude.Int.{ℤ, pos, negsuc}
use mizu_panel.Prelude.Result.{Result, ok, err, ◌>>◌, refuse_if, passed, succeeded, ok_unique}

pub record SshRequest : Type 0 where
  pub host : String
  pub port : ℤ
  pub username : String
  pub auth_type : String
  pub password : String
  pub private_key : String
  pub passphrase : String

pub data SshRefusal : Type 0 where
  host_required port_invalid username_not_root password_required private_key_required
        unsupported_auth :
      SshRefusal

abbrev pub default_port : ℤ → ℤ
default_port (pos n) = if n == 0 then pos 22 else pos n
default_port (negsuc n) = negsuc n

abbrev pub is_bad_port : ℤ → Bool
is_bad_port (pos n) = ltb n 1 || ltb 65535 n
is_bad_port (negsuc n) = true

module _ (trim_space : String → String) where
  abbrev pub trimmed : SshRequest → SshRequest
  trimmed r = record r {
    host = trim_space r.host;
    username = trim_space r.username;
    auth_type = trim_space r.auth_type;
    port = default_port r.port;
  }

  abbrev pub check_auth : SshRequest → Result SshRefusal (Unit {0})
  check_auth r =
      if str_eq r.auth_type "password"
      then refuse_if (str_eq r.password "") password_required
      else if str_eq r.auth_type "private_key"
      then refuse_if (str_eq (trim_space r.private_key) "") private_key_required
      else err unsupported_auth

  abbrev pub check_request : SshRequest → Result SshRefusal (Unit {0})
  check_request r = do
    refuse_if (str_eq r.host "") host_required
    refuse_if (is_bad_port r.port) port_invalid
    refuse_if (not (str_eq r.username "root")) username_not_root
    check_auth r

  -- ValidateSSHRequest changes the request that it is given: the result is that request.
  unfoldable pub validate_ssh_request : SshRequest → Result SshRefusal SshRequest
  validate_ssh_request r = do check_request (trimmed r); ok (trimmed r)

-- SanitizeProgressMessage
abbrev pub sanitize_progress_message :
    (String → String → String → String) → String → List String → String
sanitize_progress_message replace_all message [] = message
sanitize_progress_message replace_all message (secret ∷ secrets) =
    if str_eq secret ""
    then sanitize_progress_message replace_all message secrets
    else sanitize_progress_message replace_all (replace_all message secret "[redacted]") secrets

-- What an accepted request has.
pub record IsUsable (trim_space : String → String) (r : SshRequest) : Type 0 where
  pub has_host : str_eq r.host "" ≡ false
  pub port_number : (n : ℕ) × (r.port ≡ pos n) × (1 ≤ n) × (n ≤ 65535)
  pub is_root : str_eq r.username "root" ≡ true
  pub has_secret :
      (if str_eq r.auth_type "password"
        then not (str_eq r.password "")
        else str_eq r.auth_type "private_key" && not (str_eq (trim_space r.private_key) ""))
      ≡ true

good_port : (p : ℤ) → is_bad_port p ≡ false → (n : ℕ) × (p ≡ pos n) × (1 ≤ n) × (n ≤ 65535)
good_port (pos n) h = (n, refl, ground (arith, h), ground (arith, h))
good_port (negsuc n) h = absurd cc

module _ (trim_space : String → String) where
  check_auth_inv :
      (r : SshRequest)
      → check_auth trim_space r ≡ ok tt
      → (if str_eq r.auth_type "password"
          then not (str_eq r.password "")
          else str_eq r.auth_type "private_key" && not (str_eq (trim_space r.private_key) ""))
        ≡ true
  check_auth_inv r h = ground arith

  check_request_inv : (r : SshRequest) → check_request trim_space r ≡ ok tt → IsUsable trim_space r
  check_request_inv r h =
      let (host, h1) = passed (str_eq r.host "") host_required _ h in
      let (port, h2) = passed (is_bad_port r.port) port_invalid _ h1 in
      let (user, h3) = passed (not (str_eq r.username "root")) username_not_root _ h2 in
      record {
        has_host = host;
        port_number = good_port r.port port;
        is_root = ground (arith, user);
        has_secret = check_auth_inv r h3;
      }

  -- A request that ValidateSSHRequest accepts has, after it is trimmed, a host, a port from 1 to
  -- 65535, the user root, and a password or a private key that is not blank.
  pub validate_ssh_request-IsUsable :
      (r checked : SshRequest)
      → validate_ssh_request trim_space r ≡ ok checked
      → IsUsable trim_space checked
  unfolding validate_ssh_request
  validate_ssh_request-IsUsable r checked h =
      let (fine, same) = succeeded (check_request trim_space (trimmed trim_space r)) _ h in
      let e : trimmed trim_space r ≡ checked = ok_unique refl same in
      rw e at (check_request_inv (trimmed trim_space r) fine)
