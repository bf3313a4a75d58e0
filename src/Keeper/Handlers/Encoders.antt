-- ===== src/Keeper/Handlers/Encoders.antt =====
-- The encoders of the messages of contracts, x/wasm/keeper/handler_plugin_encoders.go: those of
-- bank, wasm, distribution, staking and gov messages and the conversion of coins. Encoding the other
-- messages, numbers in texts and sdk.Coins are parameters.
use cosmwasgo.Base.{ℕ, Bool, List, [], ◌∷◌, Option, none, some, String}
use cosmwasgo.Base.Outcome.{Error, registered, wrap, Outcome, ok, err, panic, external}
use cosmwasgo.Access.{err_invalid}
use cosmwasgo.Vm.{
  VoteOption, WeightedVoteOption, GovMsg, StakingMsg, DistributionMsg, Bytes, WasmCoin, WasmMsg,
  BankMsg, CosmosMsg, InstantiateMsg,
}
use cosmwasgo.Keeper.Host.{Coin, Values}
use cosmwasgo.Messages.{Message, MsgInstantiateContract}

-- sdk.Msg: a message of the module, of the bank, distribution, staking and gov modules, or any other
pub data SdkMsg : Type 0 where
  wasm : Message → SdkMsg
  bank_send : Bytes → Bytes → List Coin → SdkMsg
  set_withdraw_address withdraw_delegator_reward : Bytes → Bytes → SdkMsg
  fund_community_pool : Bytes → List Coin → SdkMsg
  delegate undelegate : Bytes → Bytes → Coin → SdkMsg
  begin_redelegate : Bytes → Bytes → Bytes → Coin → SdkMsg
  vote : Bytes → ℕ → VoteOption → SdkMsg
  vote_weighted : Bytes → ℕ → List WeightedVoteOption → SdkMsg
  other : Bytes → SdkMsg

-- sdkmath.Int, as far as the code tells its values apart
pub data Amount : Type 0 where
  natural : ℕ → Amount
  negative : Amount

-- AccAddress.String, sdkmath.NewIntFromString, the text of a LegacyNewDecFromStr, sdk.ValidateDenom, Coins.Add and Coins.Sort, and the
-- encoders of the messages to other modules
pub record Coding : Type 0 where
  pub render : Bytes → Bytes
  pub new_int_from_string : Bytes → Option Amount
  pub new_dec_from_str : Bytes → Outcome Bytes
  pub validate_denom : String → Outcome (Unit {0})
  pub add : List Coin → Coin → List Coin
  pub sort : List Coin → List Coin
  pub encode_other : Values → Bytes → Bytes → CosmosMsg → Outcome (List SdkMsg)

abbrev pub err_unknown_msg : Error
err_unknown_msg = registered "wasm" 20

abbrev pub and_then : {A B : Type 0} → Outcome A → (A → Outcome B) → Outcome B
and_then (ok a) f = f a
and_then (err e) f = err e
and_then (panic p) f = panic p

abbrev pub within_text : {A : Type 0} → String → Outcome A → Outcome A
within_text text (ok a) = ok a
within_text text (err e) = err (wrap e text)
within_text text (panic p) = panic p

module _ (x : Coding) where
  -- the amount of a coin, with Coin.Validate after the denomination was accepted
  abbrev pub validated : String → Amount → Outcome Coin
  validated denom (natural n) =
      and_then (x.validate_denom denom) (λ u. ok (record { denom = denom; amount = n }))
  validated denom negative = and_then (x.validate_denom denom) (λ u. err (external 31))

  -- ConvertWasmCoinToSdkCoin
  pub convert_wasm_coin_to_sdk_coin : WasmCoin → Outcome Coin
  convert_wasm_coin_to_sdk_coin coin = elim (x.new_int_from_string coin.amount) [
    | none ↦ err (wrap (registered "sdk" 10) "coin")
    | some amount ↦ validated coin.denom amount
  ]

  pub convert_from : List Coin → List WasmCoin → Outcome (List Coin)
  unfolding convert_wasm_coin_to_sdk_coin
  convert_from to_send [] = ok (x.sort to_send)
  convert_from to_send (coin ∷ coins) =
      and_then (convert_wasm_coin_to_sdk_coin coin) (λ c. convert_from (x.add to_send c) coins)

  -- ConvertWasmCoinsToSdkCoins
  pub convert_wasm_coins_to_sdk_coins : List WasmCoin → Outcome (List Coin)
  unfolding convert_from
  convert_wasm_coins_to_sdk_coins coins = convert_from [] coins

  -- EncodeBankMsg
  pub encode_bank_msg : Bytes → BankMsg → Outcome (List SdkMsg)
  unfolding convert_wasm_coins_to_sdk_coins
  encode_bank_msg sender (BankMsg.send to []) = ok []
  encode_bank_msg sender (BankMsg.send to (coin ∷ coins)) =
      and_then (convert_wasm_coins_to_sdk_coins (coin ∷ coins))
        (λ to_send. ok (bank_send (x.render sender) to to_send ∷ []))
  encode_bank_msg sender (BankMsg.burn coins) = err (wrap err_unknown_msg "unknown variant of Bank")
  encode_bank_msg sender BankMsg.unset = err (wrap err_unknown_msg "unknown variant of Bank")

  abbrev pub instantiate_msg : Bytes → InstantiateMsg → List Coin → MsgInstantiateContract
  instantiate_msg sender m coins = record {
    sender = x.render sender;
    admin = m.admin;
    code_id = m.code_id;
    label = m.label;
    msg = m.msg;
    funds = coins;
  }

  -- EncodeWasmMsg
  unfoldable pub encode_wasm_msg : Bytes → WasmMsg → Outcome (List SdkMsg)
  unfolding convert_wasm_coins_to_sdk_coins
  encode_wasm_msg sender (WasmMsg.execute m) =
      and_then (convert_wasm_coins_to_sdk_coins m.funds) (λ coins. ok (
        wasm (
          Message.execute_contract (record {
            sender = x.render sender;
            contract = m.contract_addr;
            msg = m.msg;
            funds = coins;
          }))
        ∷ []))
  encode_wasm_msg sender (WasmMsg.instantiate m) =
      and_then (convert_wasm_coins_to_sdk_coins m.funds)
        (λ coins. ok (wasm (Message.instantiate_contract (instantiate_msg sender m coins)) ∷ []))
  encode_wasm_msg sender (WasmMsg.instantiate2 m salt) =
      and_then (convert_wasm_coins_to_sdk_coins m.funds) (λ coins. ok (
        wasm (
          Message.instantiate_contract2
            (record { base = instantiate_msg sender m coins; salt = salt; fix_msg = Bool.false }))
        ∷ []))
  encode_wasm_msg sender (WasmMsg.migrate m) = ok (
      wasm (
        Message.migrate_contract (record {
          sender = x.render sender;
          contract = m.contract_addr;
          code_id = m.new_code_id;
          msg = m.msg;
        }))
      ∷ [])
  encode_wasm_msg sender (WasmMsg.update_admin contract_addr admin) = ok (
      wasm (
        Message.update_admin
          (record { sender = x.render sender; new_admin = admin; contract = contract_addr }))
      ∷ [])
  encode_wasm_msg sender (WasmMsg.clear_admin contract_addr) = ok (
      wasm (Message.clear_admin (record { sender = x.render sender; contract = contract_addr }))
      ∷ [])
  encode_wasm_msg sender WasmMsg.unset = err (wrap err_unknown_msg "unknown variant of Wasm")

  -- EncodeDistributionMsg
  pub encode_distribution_msg : Bytes → DistributionMsg → Outcome (List SdkMsg)
  unfolding convert_wasm_coins_to_sdk_coins
  encode_distribution_msg sender (DistributionMsg.set_withdraw_address addr) =
      ok (set_withdraw_address (x.render sender) addr ∷ [])
  encode_distribution_msg sender (DistributionMsg.withdraw_delegator_reward validator) =
      ok (withdraw_delegator_reward (x.render sender) validator ∷ [])
  encode_distribution_msg sender (DistributionMsg.fund_community_pool amount) =
      and_then (convert_wasm_coins_to_sdk_coins amount)
        (λ coins. ok (fund_community_pool (x.render sender) coins ∷ []))
  encode_distribution_msg sender DistributionMsg.unset =
      err (wrap err_unknown_msg "unknown variant of Distribution")

  -- EncodeStakingMsg
  pub encode_staking_msg : Bytes → StakingMsg → Outcome (List SdkMsg)
  unfolding convert_wasm_coin_to_sdk_coin
  encode_staking_msg sender (StakingMsg.delegate validator amount) =
      and_then (convert_wasm_coin_to_sdk_coin amount)
        (λ coin. ok (delegate (x.render sender) validator coin ∷ []))
  encode_staking_msg sender (StakingMsg.redelegate source target amount) =
      and_then (convert_wasm_coin_to_sdk_coin amount)
        (λ coin. ok (begin_redelegate (x.render sender) source target coin ∷ []))
  encode_staking_msg sender (StakingMsg.undelegate validator amount) =
      and_then (convert_wasm_coin_to_sdk_coin amount)
        (λ coin. ok (undelegate (x.render sender) validator coin ∷ []))
  encode_staking_msg sender StakingMsg.unset =
      err (wrap err_unknown_msg "unknown variant of Staking")

  -- convertVoteOption; the options of both sides have the same names
  pub convert_vote_option : VoteOption → Outcome VoteOption
  convert_vote_option VoteOption.unset_vote_option = err err_invalid
  convert_vote_option option = ok option

  abbrev pub vote_option : VoteOption → Outcome VoteOption
  unfolding convert_vote_option
  vote_option option = within_text "vote option" (convert_vote_option option)

  -- the loop of EncodeGovMsg over the options
  abbrev pub vote_options : List WeightedVoteOption → Outcome (List WeightedVoteOption)
  unfolding convert_vote_option
  vote_options [] = ok []
  vote_options (v ∷ options) =
      and_then (within_text "weight for vote" (x.new_dec_from_str v.weight)) (λ weight.
        and_then (vote_option v.option) (λ option.
          and_then (vote_options options)
            (λ rest. ok (record { option = option; weight = weight } ∷ rest))))

  -- EncodeGovMsg
  pub encode_gov_msg : Bytes → GovMsg → Outcome (List SdkMsg)
  unfolding convert_vote_option
  encode_gov_msg sender (GovMsg.vote proposal option) =
      and_then (vote_option option) (λ o. ok (vote (x.render sender) proposal o ∷ []))
  encode_gov_msg sender (GovMsg.vote_weighted proposal options) =
      and_then (vote_options options)
        (λ opts. ok (vote_weighted (x.render sender) proposal opts ∷ []))
  encode_gov_msg sender GovMsg.unset = err (wrap err_unknown_msg "unknown variant of gov")

  -- MessageEncoders.Encode
  unfoldable pub encode : Values → Bytes → Bytes → CosmosMsg → Outcome (List SdkMsg)
  unfolding encode_bank_msg encode_wasm_msg encode_distribution_msg encode_staking_msg
      encode_gov_msg
  encode v addr port (CosmosMsg.bank m) = encode_bank_msg addr m
  encode v addr port (CosmosMsg.wasm m) = encode_wasm_msg addr m
  encode v addr port (CosmosMsg.custom b) = x.encode_other v addr port (CosmosMsg.custom b)
  encode v addr port (CosmosMsg.distribution m) = encode_distribution_msg addr m
  encode v addr port (CosmosMsg.gov m) = encode_gov_msg addr m
  encode v addr port (CosmosMsg.ibc b) = x.encode_other v addr port (CosmosMsg.ibc b)
  encode v addr port (CosmosMsg.staking m) = encode_staking_msg addr m
  encode v addr port (CosmosMsg.any b) = x.encode_other v addr port (CosmosMsg.any b)
  encode v addr port CosmosMsg.unset = err (wrap err_unknown_msg "unknown variant of Wasm")
