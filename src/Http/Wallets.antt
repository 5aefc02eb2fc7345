-- ===== src/Http/Wallets.antt =====
-- wallet_handler.go: the handlers of /wallet.
use multi_trade_platform.Base.{ℕ, Option}
use multi_trade_platform.Store.{World, Error, WalletTransaction}
use multi_trade_platform.Wallet.{
  AmountInput, UpdatedWallet, get_wallet, deposit, withdraw, list_user_transactions,
}
use multi_trade_platform.Http.{
  Reply, Handler, reply, refuse, refuse_with, must_user_id, bound, respond_with, wallet_body,
  moved_body, transactions_body,
}

abbrev pub get_wallet_failure : Error → Reply
get_wallet_failure Error.wallet_not_found = refuse 404 "wallet not found"
get_wallet_failure e = refuse 500 "could not retrieve wallet"

unfoldable pub get_wallet_handler : Option ℕ → Handler World
get_wallet_handler user w =
    respond_with (λ x. reply 200 (wallet_body x)) get_wallet_failure
      (get_wallet (must_user_id user)) w

abbrev pub deposit_failure : Error → Reply
deposit_failure Error.invalid_amount = refuse_with 400 Error.invalid_amount
deposit_failure Error.wallet_not_found = refuse 404 "wallet not found"
deposit_failure e = refuse 500 "deposit failed"

abbrev pub moved_reply : UpdatedWallet × WalletTransaction → Reply
moved_reply (x, t) = reply 200 (moved_body x t)

unfoldable pub deposit_handler : Option ℕ → Option AmountInput → Handler World
deposit_handler user body w =
    bound body
      (λ input. respond_with moved_reply deposit_failure (deposit (must_user_id user) input)) w

abbrev pub withdraw_failure : Error → Reply
withdraw_failure Error.invalid_amount = refuse_with 400 Error.invalid_amount
withdraw_failure Error.insufficient_balance = refuse 422 "insufficient balance"
withdraw_failure Error.wallet_not_found = refuse 404 "wallet not found"
withdraw_failure e = refuse 500 "withdrawal failed"

unfoldable pub withdraw_handler : Option ℕ → Option AmountInput → Handler World
withdraw_handler user body w =
    bound body
      (λ input. respond_with moved_reply withdraw_failure (withdraw (must_user_id user) input)) w

abbrev pub list_transactions_failure : Error → Reply
list_transactions_failure Error.wallet_not_found = refuse 404 "wallet not found"
list_transactions_failure e = refuse 500 "could not retrieve transactions"

unfoldable pub list_transactions_handler : Option ℕ → ℕ → ℕ → Handler World
list_transactions_handler user page page_size w =
    respond_with (λ p. reply 200 (transactions_body p)) list_transactions_failure
      (list_user_transactions (must_user_id user) page page_size) w
