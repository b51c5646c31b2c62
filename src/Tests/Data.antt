-- ===== src/Tests/Data.antt =====
-- Test data.
use darcoin.Common.{[], ◌∷◌, pos, false}
use darcoin.Validation.{ValidationState, validation_state}
use darcoin.Tx.{Transaction}
use darcoin.Tx.Prevout.{uint_max}
use darcoin.Tx.Input.{TxIn}
use darcoin.Tx.Output.{TxOut}
use darcoin.Coins.{Coins}
use darcoin.View.Base.{NoView}
use darcoin.View.Cache.{ViewCache}

abbrev pub no_view : NoView
no_view = record {}

abbrev pub first_input : TxIn
first_input = record {
  prevout = record { hash = 5; n = 0 };
  txaddress = [];
  script_sig = 0x51 ∷ [];
  sequence = uint_max;
}

abbrev pub older_input : TxIn
older_input = record first_input { sequence = 7 }

abbrev pub paid : TxOut
paid = record { value = pos 1000; script_pub_key = 0x51 ∷ [] }

abbrev pub burnt : TxOut
burnt = record { value = pos 1; script_pub_key = 0x6a ∷ [] }

abbrev pub payment : Transaction
payment = record {
  version = pos 1;
  vin = first_input ∷ [];
  vout = paid ∷ burnt ∷ [];
  lock_time = 0;
  message = [];
  document = [];
}

abbrev pub locked : Transaction
locked = record payment { vin = older_input ∷ []; lock_time = 100 }

-- One unspent output.
abbrev pub funds : Coins
funds = record { coin_base = false; vout = paid ∷ []; height = 17; version = pos 1 }

abbrev pub fresh_state : ValidationState
fresh_state = validation_state 0

-- A cache with one entry, in front of the view that shows none.
abbrev pub funded : ViewCache NoView
funded = record { base = no_view; hash_block = 3; cache_coins = (5, funds) ∷ [] }

-- A cache in front of an empty cache.
abbrev pub stacked : ViewCache (ViewCache NoView)
stacked = record {
  base = record { base = no_view; hash_block = 0; cache_coins = [] };
  hash_block = 3;
  cache_coins = (5, funds) ∷ [];
}
