-- ===== src/Token/Metadata.antt =====
-- token/src/fungible_token_metadata.rs.
use oracle_monorepo_near.Base.{ℕ, String}

pub record FungibleTokenMetadata : Type 0 where
  pub version : String
  pub name : String
  pub symbol : String
  pub reference : String
  pub decimals : ℕ

unfoldable pub ft_metadata : FungibleTokenMetadata
ft_metadata = record {
  version = "0.1.0";
  name = "Wrapped NEAR fungible token";
  symbol = "wNEAR";
  reference = "https://github.com/near/core-contracts/tree/master/w-near-141";
  decimals = 24;
}
