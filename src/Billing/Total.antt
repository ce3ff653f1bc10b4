-- ===== src/Billing/Total.antt =====
-- What a bill comes to (engines/pricing).
use pilots_hq.Prelude.{◌+◌, ◌-◌, ◌*◌, ◌≡◌, arith}
use pilots_hq.Billing.{
  BillingInputs, Rounding, monthly_fee, shipment_cents, warehouse_cents, free_calls, overage,
  compute, build_line_item, line_items_of, sum_cents, compute_bill,
}

-- The bill in one expression.
compute_bill-sum :
    (r : Rounding) (i : BillingInputs)
    → (compute_bill r i).total_cents
      ≡ monthly_fee i.tier
        + i.shipment_count * shipment_cents i.tier
        + i.route_count * 100
        + r.prorate (i.warehouse_count * warehouse_cents i.tier) i.period_days
        + overage i.api_call_count (free_calls i.tier)
        + (i.storage_gb - 5) * 10
unfolding compute_bill line_items_of build_line_item sum_cents compute
compute_bill-sum r i = omega arith
