-- ===== src/Auth/Token.antt =====
-- pkg/jwt and pkg/password. Signing, parsing and bcrypt are third-party: a record stands for them, and
-- a record of their documented behaviour is a hypothesis of the theorems. A token is the list of its
-- bytes, and a time is in nanoseconds; the times of a token are in seconds.
use Prim.Native.String.{String}
use multi_trade_platform.Base.{
  ℕ, ◌+◌, ◌*◌, ◌/◌, ◌≤◌, ◌<◌, ◌≡◌, Bool, true, List, Option, none, some, Result, ok, err,
  if◌then◌else◌,
}
use multi_trade_platform.Store.{Error}

pub data TokenType : Type 0 where
  access refresh : TokenType

-- Claims, without the fixed issuer.
pub record Claims : Type 0 where
  pub user_id : ℕ
  pub role : String
  pub token_type : TokenType
  pub issued_at : ℕ
  pub expires_at : ℕ

-- jwt.NewNumericDate: the seconds of a time, with the precision that the package has.
abbrev pub numeric_date : ℕ → ℕ
numeric_date time = time / 1000000000

-- What jwt.ParseWithClaims returns.
pub data Parsed : Type 0 where
  parsed : Claims → Bool → Parsed
  parse_expired : Parsed
  parse_failed : Parsed

-- SignedString; ParseWithClaims, given the function that looks for the key (by whether the method is
-- an HMAC) and the time; GenerateFromPassword with its random salt; CompareHashAndPassword.
pub record Crypto : Type 0 where
  pub signed_string : Claims → String → Option (List ℕ)
  pub parse_with_claims : List ℕ → (Bool → Option String) → ℕ → Parsed
  pub generate_from_password : ℕ → String → Option String
  pub compare_hash_and_password : String → String → Bool

-- A signed token parses with its key to its claims until the second at which it expires.
pub record IsCrypto (crypto : Crypto) : Type 0 where
  pub parses :
      (c : Claims) (secret : String) (t : List ℕ) (key : Bool → Option String) (now : ℕ)
      → crypto.signed_string c secret ≡ some t
      → key true ≡ some secret
      → now < c.expires_at * 1000000000
      → crypto.parse_with_claims t key now ≡ parsed c true
  pub expires :
      (c : Claims) (secret : String) (t : List ℕ) (key : Bool → Option String) (now : ℕ)
      → crypto.signed_string c secret ≡ some t
      → key true ≡ some secret
      → c.expires_at * 1000000000 ≤ now
      → crypto.parse_with_claims t key now ≡ parse_expired
  pub compares :
      (salt : ℕ) (password hash : String)
      → crypto.generate_from_password salt password ≡ some hash
      → crypto.compare_hash_and_password hash password ≡ true

-- JWTService
pub record JwtService : Type 0 where
  pub secret : String
  pub access_expiry : ℕ
  pub refresh_expiry : ℕ

pub record TokenPair : Type 0 where
  pub access_token : List ℕ
  pub refresh_token : List ℕ

module _ (crypto : Crypto) (s : JwtService) where
  unfoldable pub generate_token : ℕ → ℕ → String → TokenType → ℕ → Option (List ℕ)
  generate_token now user_id role kind expiry =
      crypto.signed_string
        (record {
          user_id = user_id;
          role = role;
          token_type = kind;
          issued_at = numeric_date now;
          expires_at = numeric_date (now + expiry);
        })
        s.secret

  abbrev pair_with : Option (List ℕ) → Option (List ℕ) → Result Error TokenPair
  pair_with none r = err Error.sign_failed
  pair_with (some a) none = err Error.sign_failed
  pair_with (some a) (some r) = ok (record { access_token = a; refresh_token = r })

  -- The clock is read for each token.
  unfoldable pub generate_token_pair : ℕ → ℕ → ℕ → String → Result Error TokenPair
  generate_token_pair now later user_id role =
      pair_with (generate_token now user_id role access s.access_expiry)
        (generate_token later user_id role refresh s.refresh_expiry)

  -- The method of the token must be an HMAC.
  abbrev pub key_for : Bool → Option String
  key_for hmac = if hmac then some s.secret else none

  abbrev checked : Parsed → Result Error Claims
  checked parse_expired = err Error.token_expired
  checked parse_failed = err Error.token_invalid
  checked (parsed c valid) = if valid then ok c else err Error.token_invalid

  unfoldable pub parse_token : ℕ → List ℕ → Result Error Claims
  parse_token now t = checked (crypto.parse_with_claims t key_for now)
