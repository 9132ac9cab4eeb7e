-- ===== src/Metadata/Lookup.antt =====
-- `_is_outcome_coin`, `_is_known_coin`, `_outcome_market_info` and `_market_info`.

use async_hyperliquid.Prelude.{
  ℕ, ◌+◌, ◌%◌, String, Bool, true, not, ◌||◌, Option, none, some, [], ◌∷◌, ◌++◌, ltb, if◌then◌else◌,
  string_eq, nat_eq, contains, pos, int_eq,
}
use async_hyperliquid.Result.{value_error, Result, ok, ◌>>=◌, ◌>>◌, raise_if, or_raise}
use async_hyperliquid.Dict.{get, has_key}
use async_hyperliquid.Text.{Chars, chars, of_chars, char_eq, print, starts_with_char}
use async_hyperliquid.Text.Digits.{read_from}
use async_hyperliquid.Metadata.{outcome_asset_offset, MarketInfo, MetadataSnapshot}

unfoldable pub is_outcome_coin : String → Bool
is_outcome_coin coin = starts_with_char "#" (chars coin) || starts_with_char "+" (chars coin)

unfoldable pub is_known_coin : MetadataSnapshot → String → Bool
unfolding is_outcome_coin
is_known_coin snapshot coin = is_outcome_coin coin || has_key coin snapshot.coin_by_alias

-- `int(raw)` of ASCII digits, and `none` where `isascii` and `isdecimal` do not both hold.
abbrev pub decimal_text : Chars → Option ℕ
decimal_text [] = none
decimal_text (c ∷ cs) = read_from 0 (c ∷ cs)

-- What follows the prefix, `coin[1:]`.
abbrev pub rest_of : Chars → Chars
rest_of [] = []
rest_of (c ∷ cs) = cs

abbrev pub hash_name : ℕ → String
hash_name n = of_chars ("#" ∷ print n)

abbrev pub about : String → String → String
about problem coin = of_chars (chars problem ++ chars coin)

unfoldable pub outcome_market_info : String → Result (Option MarketInfo)
unfolding is_outcome_coin
outcome_market_info coin = if not (is_outcome_coin coin) then ok none else do
  encoding ←
      or_raise (decimal_text (rest_of (chars coin)))
        (value_error (about "invalid outcome market: " coin))
  raise_if (ltb 1 (encoding % 10)) (value_error (about "invalid outcome side: " coin))
  ok (
      some (record {
        coin = hash_name encoding;
        asset = pos (outcome_asset_offset + encoding);
        size_decimals = pos 0;
        is_spot = true;
        dex = "";
      }))

unfoldable pub indexed_market_info : MetadataSnapshot → String → Result MarketInfo
indexed_market_info snapshot coin = do
  let unknown = value_error (about "unknown market: " coin)
  name ← or_raise (get coin snapshot.coin_by_alias) unknown
  asset ← or_raise (get name snapshot.asset_by_coin) unknown
  decimals ← or_raise (get asset snapshot.size_decimals_by_asset) unknown
  ok (record {
    coin = name;
    asset = asset;
    size_decimals = decimals;
    is_spot = contains name snapshot.spot_market_coins;
    dex = elim (get name snapshot.perp_context_by_coin) [ none ↦ "" | some context ↦ context.0 ];
  })

unfoldable pub market_info : MetadataSnapshot → String → Result MarketInfo
market_info snapshot coin = do
  outcome ← outcome_market_info coin
  elim outcome [ some info ↦ ok info | none ↦ indexed_market_info snapshot coin ]
