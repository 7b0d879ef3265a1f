-- ===== src/Program/Tests/Data.antt =====
-- A market, its accounts and a token program to run the instructions on.
use basingamarket.Base.{
  ℕ, ◌+◌, ◌-◌, ◌*◌, ◌≤◌, ◌≡◌, true, false, List, [], ◌∷◌, inl, inr, sym, arith, ok, err,
  ok-injective, ok-ne-err, Bool-cases, leb, ◌==◌, if◌then◌else◌,
}
use basingamarket.Base.Int.{pos}
use basingamarket.Program.Error.{AnchorResult, external}
use basingamarket.Program.Runtime.{Runtime}
use basingamarket.Program.State.{
  Pubkey, Account, Asset, GlobalConfig, MarketConfig, Round, RoundOutcome, PositionLot, Side,
  new_curve, opened,
}
use basingamarket.Program.Token.{Spl, IsSpl, Transfer}

-- Token balances by account. Account `k` belongs to `k - 10`, every mint is 9 and has six decimals.
abbrev pub Balances : Type 0
Balances = Pubkey → ℕ

abbrev pub debited : Balances → Pubkey → ℕ → Balances
debited l source n k = if k == source then l k - n else l k

abbrev pub credited : Balances → Pubkey → ℕ → Balances
credited l destination n k = if k == destination then l k + n else l k

abbrev pub toy_transfer : Balances → Transfer → AnchorResult Balances
toy_transfer l t =
    if leb t.amount (l t.source)
    then ok (credited (debited l t.source t.amount) t.destination t.amount)
    else err (external 1)

abbrev pub toy : Spl Balances
toy = record {
  mint_of = λ _ _. 9;
  owner_of = λ _ k. k - 10;
  amount_of = λ l k. l k;
  decimals_of = λ _ _. 6;
  transfer = toy_transfer;
}

toy_transfer-eq :
    (l : Balances) (t : Transfer) (l' : Balances)
    → toy_transfer l t ≡ ok l'
    → (t.amount ≤ l t.source) × (l' ≡ credited (debited l t.source t.amount) t.destination t.amount)
toy_transfer-eq l t l' h = elim (Bool-cases (leb t.amount (l t.source))) [
  | inl e ↦ (ground (arith, e), sym (ok-injective (rw e at h)))
  | inr e ↦ absurd (ok-ne-err (sym (rw e at h)))
]

pub toy-IsSpl : IsSpl toy
toy-IsSpl = record {
  debit = λ l t l' h ne.
      let (covered, e) = toy_transfer-eq l t l' h in rw e (ground (arith, ne, covered));
  credit = λ l t l' h ne. let (covered, e) = toy_transfer-eq l t l' h in rw e (ground (arith, ne));
  other =
      λ l t l' k h p q. let (covered, e) = toy_transfer-eq l t l' h in rw e (ground (arith, p, q));
}

abbrev pub symbol : List ℕ
symbol = b'B' ∷ b'T' ∷ b'C' ∷ []

abbrev pub interval : List ℕ
interval = b'5' ∷ b'm' ∷ []

-- Fees of half a percent on buying and reselling and one percent on settlement.
abbrev pub config : GlobalConfig
config = record {
  admin = 4;
  protocol_treasury = 7;
  usdc_mint = 9;
  trusted_settlement_actor = 5;
  buy_fee_bps = 50;
  resale_fee_bps = 50;
  settlement_fee_bps = 100;
  min_side_real_usdc = 1000000;
  protocol_fee_accrued_usdc = 0;
  paused = false;
  bump = 255;
}

abbrev pub market : MarketConfig
market = record {
  market_id = 1;
  asset = Asset.btc;
  duration_seconds = 300;
  binance_symbol = symbol;
  binance_interval = interval;
  virtual_usdc_start = 50000000000;
  virtual_ticket_start = 100000000000;
  opening_batch_seconds = 10;
  opening_wallet_side_cap_usdc = 5000000;
  active = true;
  bump = 254;
}

-- A round from 100 to 200, whose batch ends at 110, with nothing sold.
abbrev pub round : Round
round = record {
  market = 6;
  round_id = 1;
  start_at = pos 100;
  batch_until = pos 110;
  end_at = pos 200;
  start_price = 2000;
  end_price = 0;
  status = opened;
  winning_side = RoundOutcome.none;
  up = new_curve 50000000000 100000000000;
  down = new_curve 50000000000 100000000000;
  round_bonus_usdc = 0;
  payout_per_ticket = 0;
  settlement_vault = 0;
  protocol_vault_amount = 0;
  binance_symbol = symbol;
  binance_interval = interval;
  binance_open_time_ms = pos 100000;
  binance_close_time_ms = pos 0;
  bump = 253;
}

-- The keys: the buyer is 1 with account 11, the round 2 with 12, the configuration 3 with 13, and the
-- cashier 5 with 15.
abbrev pub round_account : Account Round
round_account = record { key = 2; value = round }

abbrev pub config_account : Account GlobalConfig
config_account = record { key = 3; value = config }

abbrev pub balances : Balances
balances k = if k == 11 then 900000000 else if k == 15 then 700000000 else 0

abbrev pub blank_lot : PositionLot
blank_lot = record {
  lot_id = 0;
  round = 0;
  side = Side.up;
  current_owner = 0;
  original_buyer = 0;
  ticket_amount = 0;
  usdc_in = 0;
  avg_entry_price = 0;
  listed = false;
  listed_price = 0;
  created_at = pos 0;
  last_transfer_at = pos 0;
  claimed = false;
}

-- A hundred tickets of the buyer on the side up.
abbrev pub lot : PositionLot
lot = record blank_lot {
  lot_id = 1;
  round = 2;
  current_owner = 1;
  original_buyer = 1;
  ticket_amount = 100000000;
  usdc_in = 50000000;
  avg_entry_price = 500000;
  created_at = pos 120;
  last_transfer_at = pos 120;
}

-- Every address is 88 with bump 250, and an account is created as asked.
abbrev pub runtime : Runtime
runtime = record {
  find_program_address = λ _. (88, 250);
  minimum_balance = λ space. space * 10;
  create_account = λ c. ok (record c.account { lamports = c.lamports });
}

-- The round with 200 tickets sold on the side up and 180 on the side down, for 150 dollars each.
abbrev pub sold_round : Round
sold_round = record round {
  up = record {
    virtual_usdc = 50150000000;
    virtual_ticket = 99800000000;
    real_usdc = 150000000;
    ticket_supply = 200000000;
  };
  down = record {
    virtual_usdc = 50150000000;
    virtual_ticket = 99820000000;
    real_usdc = 150000000;
    ticket_supply = 180000000;
  };
}
