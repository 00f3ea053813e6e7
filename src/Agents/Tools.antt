-- ===== src/Agents/Tools.antt =====
-- packages/agents/tools.py: the catalogue of products and the tool that lists it. Names and
-- descriptions of products, and the schemas that a model is shown, are texts and left out.
use mandate_razorpay_control.Prelude.{
  ℕ, Bool, true, Option, none, some, List, [], ◌∷◌, filter, if◌then◌else◌,
}
use mandate_razorpay_control.Prelude.Text.{lower, text_eq}

pub record Product : Type 0 where
  pub id : List ℕ
  pub category : List ℕ
  pub price_paise : ℕ
  pub stock : ℕ

abbrev product : List ℕ → List ℕ → ℕ → ℕ → Product
product id category price_paise stock = record {
  id = id;
  category = category;
  price_paise = price_paise;
  stock = stock;
}

abbrev electronics : List ℕ
electronics = b'E' ∷ b'l' ∷ b'e' ∷ b'c' ∷ b't' ∷ b'r' ∷ b'o' ∷ b'n' ∷ b'i' ∷ b'c' ∷ b's' ∷ []

abbrev accessories : List ℕ
accessories = b'A' ∷ b'c' ∷ b'c' ∷ b'e' ∷ b's' ∷ b's' ∷ b'o' ∷ b'r' ∷ b'i' ∷ b'e' ∷ b's' ∷ []

abbrev enterprise : List ℕ
enterprise = b'E' ∷ b'n' ∷ b't' ∷ b'e' ∷ b'r' ∷ b'p' ∷ b'r' ∷ b'i' ∷ b's' ∷ b'e' ∷ []

abbrev pub prod_kb_01 : List ℕ
prod_kb_01 = b'p' ∷ b'r' ∷ b'o' ∷ b'd' ∷ b'_' ∷ b'k' ∷ b'b' ∷ b'_' ∷ b'0' ∷ b'1' ∷ []

abbrev pub prod_mouse_01 : List ℕ
prod_mouse_01 =
    b'p' ∷ b'r' ∷ b'o' ∷ b'd' ∷ b'_' ∷ b'm' ∷ b'o' ∷ b'u' ∷ b's' ∷ b'e' ∷ b'_' ∷ b'0' ∷ b'1' ∷ []

abbrev pub prod_desk_mat_01 : List ℕ
prod_desk_mat_01 =
    b'p' ∷ b'r' ∷ b'o' ∷ b'd' ∷ b'_' ∷ b'd' ∷ b'e' ∷ b's' ∷ b'k' ∷ b'_' ∷ b'm' ∷ b'a' ∷ b't' ∷ b'_'
    ∷ b'0' ∷ b'1' ∷ []

abbrev pub prod_monitor_high_end : List ℕ
prod_monitor_high_end =
    b'p' ∷ b'r' ∷ b'o' ∷ b'd' ∷ b'_' ∷ b'm' ∷ b'o' ∷ b'n' ∷ b'i' ∷ b't' ∷ b'o' ∷ b'r' ∷ b'_' ∷ b'h'
    ∷ b'i' ∷ b'g' ∷ b'h' ∷ b'_' ∷ b'e' ∷ b'n' ∷ b'd' ∷ []

abbrev pub prod_enterprise_server : List ℕ
prod_enterprise_server =
    b'p' ∷ b'r' ∷ b'o' ∷ b'd' ∷ b'_' ∷ b'e' ∷ b'n' ∷ b't' ∷ b'e' ∷ b'r' ∷ b'p' ∷ b'r' ∷ b'i' ∷ b's'
    ∷ b'e' ∷ b'_' ∷ b's' ∷ b'e' ∷ b'r' ∷ b'v' ∷ b'e' ∷ b'r' ∷ []

unfoldable pub products_catalog : List Product
products_catalog =
    product prod_kb_01 electronics 650000 15
    ∷ product prod_mouse_01 electronics 899900 8
    ∷ product prod_desk_mat_01 accessories 150000 50
    ∷ product prod_monitor_high_end electronics 7500000 3
    ∷ product prod_enterprise_server enterprise 45000000 1
    ∷ []

unfoldable pub find_product : List ℕ → List Product → Option Product
unfolding text_eq
find_product product_id [] = none
find_product product_id (p ∷ rest) =
    let later = find_product product_id rest in if text_eq p.id product_id then some p else later

-- `PRODUCTS_CATALOG.get(product_id)`
unfoldable pub get_product : List ℕ → Option Product
unfolding find_product products_catalog
get_product product_id = find_product product_id products_catalog

-- `not category or p["category"].lower() == category.lower()`
abbrev pub in_category : Option (List ℕ) → Product → Bool
in_category none p = true
in_category (some []) p = true
in_category (some (c ∷ s)) p = text_eq (lower p.category) (lower (c ∷ s))

-- The tool `browse_catalog`.
unfoldable pub execute_local_catalog_tool : Option (List ℕ) → List Product
unfolding text_eq lower products_catalog
execute_local_catalog_tool category = filter (in_category category) products_catalog
