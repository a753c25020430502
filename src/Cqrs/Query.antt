-- ===== src/Cqrs/Query.antt =====
-- cqrs/query.go: the query bus.
use gohex.Prelude.{◌||◌, Option, none, some, List, [], ◌∷◌, is_some, if◌then◌else◌}
use gohex.Prelude.Map.{Map, get, put}
use gohex.Prelude.Text.{Text, text_eq, lit, is_empty}
use gohex.Kernel.Errors.{plain}
use gohex.Kernel.Result.{Result, ok, err, panic, ◌>>=◌}

-- The method of a query's Go type.
pub record Query (Q : Type 0) : Type 0 where
  pub query_name : Q → Text

-- Queries read a state `W`; `V` is Go's `any`.
abbrev pub QueryHandlerFunc : Type 0 → Type 0 → Type 0 → Type 0
QueryHandlerFunc W Q V = W → Q → Result V

abbrev pub QueryMiddleware : Type 0 → Type 0 → Type 0 → Type 0
QueryMiddleware W Q V = QueryHandlerFunc W Q V → QueryHandlerFunc W Q V

pub record QueryBus (W Q V : Type 0) : Type 0 where
  pub handlers : Map Text (QueryHandlerFunc W Q V)
  pub middleware : List (QueryMiddleware W Q V)

module _ {W Q V : Type 0} where
  abbrev pub new_query_bus : List (QueryMiddleware W Q V) → QueryBus W Q V
  new_query_bus mw = record { handlers = []; middleware = mw }

  -- HandleQuery, for the Go type whose QueryName is `name`.
  unfoldable pub handle_query :
      QueryBus W Q V → Text → QueryHandlerFunc W Q V → Result (QueryBus W Q V)
  handle_query b name fn =
      if is_empty name || is_some (get b.handlers name)
      then panic
      else ok (record b { handlers = put b.handlers name fn })

  unfoldable pub wrap_query :
      List (QueryMiddleware W Q V) → QueryHandlerFunc W Q V → QueryHandlerFunc W Q V
  wrap_query [] final = final
  wrap_query (mw ∷ rest) final = mw (wrap_query rest final)

module _ {W Q V : Type 0} ⦃qs : Query Q⦄ where
  unfoldable pub dispatch_query : QueryBus W Q V → W → Q → Result V
  unfolding wrap_query
  dispatch_query b w q = elim (get b.handlers (qs.query_name q)) [
    | none ↦ err (plain (lit "cqrs: no handler for query"))
    | some h ↦ wrap_query b.middleware h w q
  ]

  -- Ask; `cast` is the type assertion v.(R).
  unfoldable pub ask : {R : Type 0} → (V → Option R) → QueryBus W Q V → W → Q → Result R
  unfolding dispatch_query
  ask cast b w q = do
    v ← dispatch_query b w q
    elim (cast v) [ none ↦ err (plain (lit "cqrs: query returned")) | some r ↦ ok r ]
