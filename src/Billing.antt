-- ===== src/Billing.antt =====
-- engines/pricing: the rules (rules.ts) and the bill (engine.ts). Amounts are whole cents and usage is
-- counted in whole units; `prorate` is `Math.round(amount * (days / 30))`, `divide` is
-- `Math.round(a / b)`. The texts of a line are left out, and so are the dates of a bill.
pub mod Total
use pilots_hq.Prelude.{
  ℕ, zero, suc, ◌+◌, ◌-◌, ◌*◌, String, Bool, true, false, Option, none, some, List, [], ◌∷◌, ltb,
  if◌then◌else◌,
}

pub data Tier : Type 0 where
  starter growth enterprise : Tier

pub record BillingInputs : Type 0 where
  pub org_id : String
  pub tier : Tier
  pub shipment_count : ℕ
  pub route_count : ℕ
  pub warehouse_count : ℕ
  pub api_call_count : ℕ
  pub storage_gb : ℕ
  pub period_days : ℕ

-- the rules in the order of BILLING_RULES
pub data Rule : Type 0 where
  base_monthly_fee per_shipment_fee per_route_fee warehouse_fee api_overage_fee storage_fee : Rule

pub record Rounding : Type 0 where
  pub prorate : ℕ → ℕ → ℕ
  pub divide : ℕ → ℕ → ℕ

pub record BillingLineItem : Type 0 where
  pub rule : Rule
  pub quantity : ℕ
  pub unit_cents : ℕ
  pub total_cents : ℕ

pub record BillResult : Type 0 where
  pub org_id : String
  pub line_items : List BillingLineItem
  pub subtotal_cents : ℕ
  pub total_cents : ℕ
  pub inputs : BillingInputs

unfoldable pub monthly_fee : Tier → ℕ
monthly_fee starter = 2900
monthly_fee growth = 9900
monthly_fee enterprise = 29900

unfoldable pub shipment_cents : Tier → ℕ
shipment_cents starter = 50
shipment_cents growth = 30
shipment_cents enterprise = 15

unfoldable pub warehouse_cents : Tier → ℕ
warehouse_cents starter = 500
warehouse_cents growth = 300
warehouse_cents enterprise = 200

-- the calls that are free; none stands for `Infinity`
unfoldable pub free_calls : Tier → Option ℕ
free_calls starter = some 10000
free_calls growth = some 50000
free_calls enterprise = none

-- `Math.max(0, used - free)`
unfoldable pub overage : ℕ → Option ℕ → ℕ
overage used none = 0
overage used (some free) = used - free

-- the `compute` of each rule
unfoldable pub compute : Rounding → Rule → BillingInputs → ℕ
compute r base_monthly_fee i = monthly_fee i.tier
compute r per_shipment_fee i = i.shipment_count * shipment_cents i.tier
compute r per_route_fee i = i.route_count * 100
compute r warehouse_fee i = r.prorate (i.warehouse_count * warehouse_cents i.tier) i.period_days
compute r api_overage_fee i = overage i.api_call_count (free_calls i.tier) * 1
compute r storage_fee i = (i.storage_gb - 5) * 10

unfoldable pub quantity_of : Rule → BillingInputs → ℕ
quantity_of base_monthly_fee i = 1
quantity_of per_shipment_fee i = i.shipment_count
quantity_of per_route_fee i = i.route_count
quantity_of warehouse_fee i = i.warehouse_count
quantity_of api_overage_fee i = overage i.api_call_count (free_calls i.tier)
quantity_of storage_fee i = i.storage_gb - 5

-- the price of one unit, 0 where there is none to divide by
unfoldable pub unit_of : Rounding → Rule → ℕ → ℕ → ℕ
unit_of r base_monthly_fee quantity total = total
unit_of r per_shipment_fee quantity total = if ltb 0 quantity then r.divide total quantity else 0
unit_of r per_route_fee quantity total = 100
unit_of r warehouse_fee quantity total = if ltb 0 quantity then r.divide total quantity else 0
unit_of r api_overage_fee quantity total = 1
unit_of r storage_fee quantity total = 10

unfoldable pub build_line_item : Rounding → BillingInputs → Rule → BillingLineItem
build_line_item r i rule =
    let total = compute r rule i in
    let quantity = quantity_of rule i in
    record {
      rule = rule;
      quantity = quantity;
      unit_cents = unit_of r rule quantity total;
      total_cents = total;
    }

abbrev pub billing_rules : List Rule
billing_rules =
    base_monthly_fee ∷ per_shipment_fee ∷ per_route_fee ∷ warehouse_fee ∷ api_overage_fee
    ∷ storage_fee ∷ []

unfoldable pub line_items_of : Rounding → BillingInputs → List Rule → List BillingLineItem
line_items_of r i [] = []
line_items_of r i (rule ∷ rules) = build_line_item r i rule ∷ line_items_of r i rules

-- `reduce((sum, li) => sum + li.totalCents, 0)`
unfoldable pub sum_cents : ℕ → List BillingLineItem → ℕ
sum_cents sum [] = sum
sum_cents sum (l ∷ ls) = sum_cents (sum + l.total_cents) ls

unfoldable pub compute_bill : Rounding → BillingInputs → BillResult
compute_bill r i =
    let items = line_items_of r i billing_rules in
    let subtotal = sum_cents 0 items in
    record {
      org_id = i.org_id;
      line_items = items;
      subtotal_cents = subtotal;
      total_cents = subtotal;
      inputs = i;
    }

-- the bill without its being stored
unfoldable pub forecast_bill : Rounding → BillingInputs → BillResult
forecast_bill r i = compute_bill r i
