-- ===== src/Billing/Polar.antt =====
-- The objects of Polar's API as billing.py reads them, and the API itself as an interface. The
-- requests are backend/billing/polar_api.py: a call answers `none` where the status is not the
-- wanted one or the body is not an object.
use Prim.Native.Char.{Char, code}
use email_summary.Prelude.{
  ℕ, zero, suc, String, Bool, true, false, not, ◌&&◌, ◌||◌, Option, none, some, List, str_eq,
  if◌then◌else◌, leb, ◌==◌,
}
use email_summary.Accounts.Store.{given}

-- The fields of an event's `data`, or of a checkout, that are read.
pub record Data : Type 0 where
  pub account_stamp : Option String
  pub customer_id : Option String
  pub customer_obj_id : Option String
  pub customer_obj_email : Option String
  pub customer_email : Option String
  pub user_email : Option String
  pub status : Option String

pub record Subscription : Type 0 where
  pub customer_id : Option String
  pub status : Option String

pub record Page : Type 0 where
  pub items : List Subscription
  -- `pagination.max_page`; 0 where it is absent
  pub max_page : ℕ

pub record Polar : Type 0 where
  -- the customer's email, which may be absent
  pub get_customer : String → Option (Option String)
  pub get_checkout : String → Option Data
  pub list_subscriptions : ℕ → Option Page
  -- `customer_portal_url`
  pub create_customer_session : String → Option (Option String)

is_id_char : Char → Bool
is_id_char c =
    leb b'a' (code c) && leb (code c) b'z'
    || leb b'A' (code c) && leb (code c) b'Z'
    || leb b'0' (code c) && leb (code c) b'9'
    || code c == b'_'
    || code c == b'-'

all_id_chars : ℕ → String → Bool
all_id_chars room String.[] = true
all_id_chars zero (String.◌∷◌ c s) = false
all_id_chars (suc room) (String.◌∷◌ c s) = is_id_char c && all_id_chars room s

-- `valid_id`: 1 to 128 characters of `ID`.
unfoldable pub valid_id : String → Bool
unfolding all_id_chars is_id_char
valid_id s = not (str_eq s "") && all_id_chars 128 s

-- `a or b`
abbrev pub either : Option String → Option String → Option String
either a b = if given a then a else b

-- `PolarBilling._customer_id`
abbrev pub customer_of : Data → Option String
customer_of d = either d.customer_id d.customer_obj_id

-- `PolarBilling._event_email`
abbrev pub event_email : Data → Option String
event_email d = either d.customer_obj_email (either d.customer_email d.user_email)

abbrev pub entitled_status : String → Bool
entitled_status s = str_eq s "active" || str_eq s "trialing"

-- `subscription_entitled`
abbrev pub subscription_entitled : Option String → Bool
subscription_entitled none = false
subscription_entitled (some s) = entitled_status s
