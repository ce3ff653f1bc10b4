-- ===== src/Samples/Bills.antt =====
-- Bills at small inputs (engines/pricing).
use pilots_hq.Prelude.{◌*◌, ◌/◌, ◌≡◌, refl}
use pilots_hq.Billing.{
  BillingInputs, Rounding, growth, compute_bill, line_items_of, build_line_item, sum_cents, compute,
  monthly_fee, shipment_cents, warehouse_cents, free_calls, overage,
}

abbrev rounding : Rounding
rounding = record { prorate = λ amount days. amount * days / 30; divide = λ a b. a / b }

abbrev march : BillingInputs
march = record {
  org_id = "o1";
  tier = growth;
  shipment_count = 50;
  route_count = 4;
  warehouse_count = 2;
  api_call_count = 50100;
  storage_gb = 7;
  period_days = 15;
}

-- 9900 + 1500 + 400 + 300 + 100 + 20
march_lem : (compute_bill rounding march).total_cents ≡ 12220
unfolding compute_bill line_items_of build_line_item sum_cents compute monthly_fee shipment_cents
    warehouse_cents free_calls overage
march_lem = refl
