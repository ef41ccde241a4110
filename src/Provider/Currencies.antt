-- ===== src/Provider/Currencies.antt =====
-- server/provider/currenciesProvider.go
use rosetta_images.Base.{
  ℕ, ◌+◌, ◌≡◌, refl, sym, ap, subst, Bool, true, false, Option, none, some, List, [], ◌∷◌, map,
  Bytes, Dict, Result, ok, err, ◌>>=◌, is_empty, if◌then◌else◌, lookup, insert, ◌⊎◌, inl, inr, ◌==◌,
  bytes_eq, bytes_eq_iff, lookup-insert, ok-injective, guard-eq-ok, >>=-eq-ok, Memᴰ, head, tail,
}
use mathlib.Core.Option.{some-injective}
use rosetta_images.Failure.{Failure, invalid_custom_currency_symbol}
use rosetta_images.Rosetta.{Currency}

pub record CurrenciesProvider : Type 0 where
  pub native_currency : Currency
  pub custom_currencies_symbols : List Bytes
  pub custom_currencies : List Currency
  pub custom_currencies_by_symbol : Dict Currency

-- The loop over the custom currencies, from `index` on.
unfoldable pub index_by_symbol : ℕ → Dict Currency → List Currency → Result Failure (Dict Currency)
index_by_symbol index m [] = ok m
index_by_symbol index m (currency ∷ currencies) =
    let rest = index_by_symbol (index + 1) (insert currency.symbol currency m) currencies in
    if is_empty currency.symbol then err (invalid_custom_currency_symbol index) else rest

unfoldable pub new_currencies_provider :
    ℕ → Bytes → List Currency → Result Failure CurrenciesProvider
unfolding index_by_symbol
new_currencies_provider native_currency_num_decimals native_currency_symbol custom_currencies =
    index_by_symbol 0 [] custom_currencies >>= λ by_symbol. ok (record {
      native_currency = record {
        symbol = native_currency_symbol;
        decimals = native_currency_num_decimals;
      };
      custom_currencies_symbols = map (λ (c : Currency). c.symbol) custom_currencies;
      custom_currencies = custom_currencies;
      custom_currencies_by_symbol = by_symbol;
    })

unfoldable pub get_custom_currency_by_symbol : CurrenciesProvider → Bytes → Option Currency
get_custom_currency_by_symbol provider symbol = lookup symbol provider.custom_currencies_by_symbol

abbrev is_some : Option Currency → Bool
is_some none = false
is_some (some _) = true

unfoldable pub has_custom_currency : CurrenciesProvider → Bytes → Bool
has_custom_currency provider symbol = is_some (lookup symbol provider.custom_currencies_by_symbol)

-- What a map holds that was filled from a list of currencies, on top of `m`.
abbrev FilledFrom : Dict Currency → Dict Currency → List Currency → Type 0
FilledFrom m' m cs =
    ((s : Bytes) (c : Currency)
      → lookup s m' ≡ some c
      → (Memᴰ c cs × (c.symbol ≡ s)) ⊎ (lookup s m ≡ some c))
    × ((s : Bytes) → is_some (lookup s m) ≡ true → is_some (lookup s m') ≡ true)
    × ((c : Currency) → Memᴰ c cs → is_some (lookup c.symbol m') ≡ true)

module _ (c : Currency) (cs : List Currency) (m m' : Dict Currency) where
  fill_one : FilledFrom m' (insert c.symbol c m) cs → FilledFrom m' m (c ∷ cs)
  fill_one (origin, kept, all) = (origin', kept', all')
    where
      if_insert :
          {s : Bytes} {d : Currency} (b : Bool)
          → (c.symbol == s) ≡ b
          → (if b then some c else lookup s m) ≡ some d
          → (Memᴰ d (c ∷ cs) × (d.symbol ≡ s)) ⊎ (lookup s m ≡ some d)
      if_insert {s} {d} true h e =
          subst (λ (a : Currency). (Memᴰ a (c ∷ cs) × (a.symbol ≡ s)) ⊎ (lookup s m ≡ some a))
            (some-injective c d e) (inl (head refl, (bytes_eq_iff c.symbol s).0 h))
      if_insert false h e = inr e

      from_insert :
          (s : Bytes) (d : Currency)
          → lookup s (insert c.symbol c m) ≡ some d
          → (Memᴰ d (c ∷ cs) × (d.symbol ≡ s)) ⊎ (lookup s m ≡ some d)
      from_insert s d e = if_insert (c.symbol == s) refl (rw (lookup-insert c.symbol s c m) at e)

      origin' :
          (s : Bytes) (d : Currency)
          → lookup s m' ≡ some d
          → (Memᴰ d (c ∷ cs) × (d.symbol ≡ s)) ⊎ (lookup s m ≡ some d)
      origin' s d e = elim (origin s d e) [
        | inl h ↦ inl (tail h.0, h.1)
        | inr h ↦ from_insert s d h
      ]

      kept' : (s : Bytes) → is_some (lookup s m) ≡ true → is_some (lookup s m') ≡ true
      kept' s h = kept s (
          rw (lookup-insert c.symbol s c m)
            (elim (c.symbol == s) as (λ b. is_some (if b then some c else lookup s m) ≡ true) [
              | true ↦ refl
              | false ↦ h
            ]))

      all' : (d : Currency) → Memᴰ d (c ∷ cs) → is_some (lookup d.symbol m') ≡ true
      all' d (head e) = kept d.symbol (
          rw
            (
              lookup-insert c.symbol d.symbol c m,
              (bytes_eq_iff c.symbol d.symbol).1 (ap (λ (a : Currency). a.symbol) (sym e)),
            )
            refl)
      all' d (tail n) = all d n

index_by_symbol-FilledFrom :
    (index : ℕ) (m : Dict Currency) (cs : List Currency) (m' : Dict Currency)
    → index_by_symbol index m cs ≡ ok m'
    → FilledFrom m' m cs
unfolding index_by_symbol
index_by_symbol-FilledFrom index m [] m' h =
    subst (λ a. FilledFrom a m []) (ok-injective h) (λ s c e. inr e, λ s e. e, λ c n. elim n [ ])
index_by_symbol-FilledFrom index m (c ∷ cs) m' h =
    let (_, h1) = guard-eq-ok _ _ _ h in
    fill_one c cs m m' (index_by_symbol-FilledFrom (index + 1) (insert c.symbol c m) cs m' h1)

-- A provider that is made from custom currencies answers a symbol with one of them that has the
-- symbol, and it has the symbol of each of them.
pub new_currencies_provider_lem :
    (decimals : ℕ) (native : Bytes) (currencies : List Currency) (provider : CurrenciesProvider)
    → new_currencies_provider decimals native currencies ≡ ok provider
    → ((symbol : Bytes) (currency : Currency)
        → get_custom_currency_by_symbol provider symbol ≡ some currency
        → Memᴰ currency currencies × (currency.symbol ≡ symbol))
      × ((currency : Currency)
          → Memᴰ currency currencies
          → has_custom_currency provider currency.symbol ≡ true)
unfolding new_currencies_provider get_custom_currency_by_symbol has_custom_currency lookup
new_currencies_provider_lem decimals native currencies provider h =
    let (m, hm, h1) = >>=-eq-ok (index_by_symbol 0 [] currencies) _ h in
    let (origin, kept, all) = index_by_symbol-FilledFrom 0 [] currencies m hm in
    subst
      (λ (p : CurrenciesProvider).
        ((symbol : Bytes) (currency : Currency)
          → lookup symbol p.custom_currencies_by_symbol ≡ some currency
          → Memᴰ currency currencies × (currency.symbol ≡ symbol))
        × ((currency : Currency)
            → Memᴰ currency currencies
            → is_some (lookup currency.symbol p.custom_currencies_by_symbol) ≡ true))
      (ok-injective h1) (λ s c e. from_list (origin s c e), all)
  where
    from_list :
        {s : Bytes} {c : Currency}
        → (Memᴰ c currencies × (c.symbol ≡ s)) ⊎ Path (Option Currency) none (some c)
        → Memᴰ c currencies × (c.symbol ≡ s)
    from_list (inl r) = r
    from_list (inr e) = cc
