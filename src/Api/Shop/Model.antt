-- ===== src/Api/Shop/Model.antt =====
-- The data of api/shop_repository.py, and of the shop in api/schemas.py.
use gps_tracking.Prelude.{ℕ, Bool, Option, List, [], ◌==◌}
use gps_tracking.Protocol.Codec.Cell.{Text}

-- `OrderStatus`, `ProductOut`, `ProductIn`, `ProductUpdate`, `OrderCreate`, `OrderEventOut` and `OrderOut` of
-- api/schemas.py.
pub data OrderStatus : Type 0 where
  placed confirmed shipped delivered cancelled : OrderStatus

abbrev pub status_number : OrderStatus → ℕ
status_number placed = 0
status_number confirmed = 1
status_number shipped = 2
status_number delivered = 3
status_number cancelled = 4

abbrev pub same_status : OrderStatus → OrderStatus → Bool
same_status s t = status_number s == status_number t

pub record ProductIn : Type 0 where
  pub name : Text
  pub description : Option Text
  pub price : ℕ
  pub active : Bool

pub record Product : Type 0 where
  pub id : ℕ
  pub name : Text
  pub description : Option Text
  pub price : ℕ
  pub active : Bool
  pub created_at : ℕ

pub record ProductUpdate : Type 0 where
  pub name : Option Text
  pub description : Option (Option Text)
  pub price : Option ℕ
  pub active : Option Bool

pub record Delivery : Type 0 where
  pub contact_name : Text
  pub phone : Text
  pub address : Text
  pub city : Text
  pub state : Option Text
  pub pincode : Text
  pub notes : Option Text

pub record OrderCreate : Type 0 where
  pub product_id : ℕ
  pub quantity : ℕ
  pub delivery : Delivery

pub record OrderEvent : Type 0 where
  pub status : OrderStatus
  pub note : Option Text
  pub changed_by : Option Text
  pub changed_at : ℕ

pub record Order : Type 0 where
  pub id : ℕ
  pub user_id : ℕ
  pub username : Text
  pub product_id : ℕ
  pub product_name : Text
  pub unit_price : ℕ
  pub quantity : ℕ
  pub total : ℕ
  pub delivery : Delivery
  pub status : OrderStatus
  pub tracking : Option Text
  pub admin_note : Option Text
  pub device_ids : List Text
  pub created_at : ℕ
  pub updated_at : ℕ
  pub events : List OrderEvent

pub record Shop : Type 0 where
  pub products : List (ℕ × Product)
  pub orders : List (ℕ × Order)
  pub next_product : ℕ
  pub next_order : ℕ

abbrev pub new_shop : Shop
new_shop = record { products = []; orders = []; next_product = 1; next_order = 1 }
