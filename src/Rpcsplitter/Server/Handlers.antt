-- ===== src/Rpcsplitter/Server/Handlers.antt =====
-- The handlers of the eth_ and net_ procedures of rpcsplitter/server.go.
use go_utils.Prelude.Int.{ℤ}
use go_utils.Prelude.{ℕ, Option, none, some, [], ◌∷◌}
use go_utils.Rpcsplitter.Server.{
  Server, Outcome, Arg, value, block, null, call, by_default, by_gas_value, by_block_number,
  tagged_block_to_number, with_block,
}

module _ (s : Server) where
  unfoldable pub block_number : Outcome
  block_number = call s (by_block_number s) "eth_blockNumber" []

  unfoldable pub get_block_by_hash : ℕ → ℕ → Outcome
  get_block_by_hash block_hash obj =
      call s (by_default s) "eth_getBlockByHash" (value block_hash ∷ value obj ∷ [])

  unfoldable pub get_block_by_number : ℕ → ℕ → Outcome
  get_block_by_number n obj =
      call s (by_default s) "eth_getBlockByNumber" (value n ∷ value obj ∷ [])

  unfoldable pub get_transaction_by_hash : ℕ → Outcome
  get_transaction_by_hash tx_hash =
      call s (by_default s) "eth_getTransactionByHash" (value tx_hash ∷ [])

  unfoldable pub get_transaction_count : ℕ → ℤ → Outcome
  get_transaction_count addr block_id =
      with_block (tagged_block_to_number s block_id)
        λ n. call s (by_default s) "eth_getTransactionCount" (value addr ∷ block n ∷ [])

  unfoldable pub get_transaction_receipt : ℕ → Outcome
  get_transaction_receipt tx_hash =
      call s (by_default s) "eth_getTransactionReceipt" (value tx_hash ∷ [])

  unfoldable pub send_raw_transaction : ℕ → Outcome
  send_raw_transaction bytes = call s (by_default s) "eth_sendRawTransaction" (value bytes ∷ [])

  unfoldable pub get_balance : ℕ → ℤ → Outcome
  get_balance addr block_id =
      with_block (tagged_block_to_number s block_id)
        λ n. call s (by_default s) "eth_getBalance" (value addr ∷ block n ∷ [])

  unfoldable pub get_code : ℕ → ℤ → Outcome
  get_code addr block_id =
      with_block (tagged_block_to_number s block_id)
        λ n. call s (by_default s) "eth_getCode" (value addr ∷ block n ∷ [])

  unfoldable pub get_storage_at : ℕ → ℕ → ℤ → Outcome
  get_storage_at account position block_id =
      with_block (tagged_block_to_number s block_id) λ n.
        call s (by_default s) "eth_getStorageAt" (value account ∷ value position ∷ block n ∷ [])

  -- Call; `overrides` may be nil
  unfoldable pub eth_call : ℕ → ℤ → Arg → Outcome
  eth_call args block_id overrides =
      with_block (tagged_block_to_number s block_id)
        λ n. call s (by_default s) "eth_call" (value args ∷ block n ∷ overrides ∷ [])

  -- A block of the filter that is given is replaced; one that is nil stays nil.
  unfoldable pub filter_block : Option ℤ → (Arg → Outcome) → Outcome
  filter_block none f = f null
  filter_block (some b) f = with_block (tagged_block_to_number s b) λ n. f (block n)

  -- GetLogs. The filter is passed as its two blocks and the rest of it.
  unfoldable pub get_logs : Option ℤ → Option ℤ → ℕ → Outcome
  unfolding filter_block
  get_logs from_block to_block rest = filter_block from_block λ from.
      filter_block to_block λ to. call s (by_default s) "eth_getLogs" (from ∷ to ∷ value rest ∷ [])

  unfoldable pub gas_price : Outcome
  gas_price = call s (by_gas_value s) "eth_gasPrice" []

  unfoldable pub estimate_gas : ℕ → ℤ → Outcome
  estimate_gas args block_id =
      with_block (tagged_block_to_number s block_id)
        λ n. call s (by_gas_value s) "eth_estimateGas" (value args ∷ block n ∷ [])

  unfoldable pub fee_history : ℕ → ℤ → ℕ → Outcome
  fee_history count newest_block_id percentiles =
      with_block (tagged_block_to_number s newest_block_id)
        λ n. call s (by_default s) "eth_feeHistory" (value count ∷ block n ∷ value percentiles ∷ [])

  unfoldable pub max_priority_fee_per_gas : Outcome
  max_priority_fee_per_gas = call s (by_gas_value s) "eth_maxPriorityFeePerGas" []

  unfoldable pub chain_id : Outcome
  chain_id = call s (by_default s) "eth_chainId" []

  unfoldable pub version : Outcome
  version = call s (by_default s) "net_version" []
