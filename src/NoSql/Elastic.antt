-- ===== src/NoSql/Elastic.antt =====
-- v2/no-sql/elasticw/elastic.go: the transport that logs requests and responses.
use go_utility.Base.{
  ℕ, Bool, Option, none, some, List, [], ◌∷◌, ◌++◌, length, ltb, leb, if◌then◌else◌,
}
use go_utility.Base.Text.{take, codes}
use go_utility.Logw.{error, info, warn}
use go_utility.NoSql.{Context, elasticw, logs, Line}

-- A body that is not read yet: its bytes, and the error that ends it, `none` where it ends well.
pub record Body (E : Type 0) : Type 0 where
  pub content : List ℕ
  pub read_error : Option E

-- `io.ReadAll` with its error ignored, and the body that is put in place.
abbrev pub drained : {E : Type 0} → Option (Body E) → List ℕ
drained none = []
drained (some b) = b.content

abbrev pub restored : {E : Type 0} → Option (Body E) → Option (Body E)
restored none = none
restored (some b) = some (record { content = b.content; read_error = none })

pub record Request (E : Type 0) : Type 0 where
  pub target : List ℕ
  pub body : Option (Body E)

pub record Response (E : Type 0) : Type 0 where
  pub status_code : ℕ
  pub body : Option (Body E)

-- What `RoundTrip` returns: a response or an error.
pub data Outcome (E : Type 0) : Type 0 where
  responded : Response E → Outcome E
  broken : E → Outcome E

-- The text of a line: the error, or the status and the bodies as far as they are shown.
pub data Text (E : Type 0) : Type 0 where
  failed : List ℕ → E → Text E
  exchange : List ℕ → ℕ → List ℕ → List ℕ → Text E

-- The part of a response that is shown.
unfoldable pub shown : List ℕ → List ℕ
shown body = if ltb 1000 (length body) then take 1000 body ++ codes "..." else body

module _ {E : Type 0} where
  unfoldable pub exchange_line : Request E → Response E → Line (Text E)
  unfolding shown
  exchange_line req res = record {
    level = if leb 400 res.status_code then warn else info;
    text = exchange req.target res.status_code (drained req.body) (shown (drained res.body));
  }

module _ {S E : Type 0} where
  unfoldable pub logged : Request E → Outcome E × S → Outcome E × List (Line (Text E)) × S
  unfolding exchange_line
  logged req (broken e, s) =
      (broken e, record { level = error; text = failed req.target e } ∷ [], s)
  logged req (responded res, s) = (
    responded (record { status_code = res.status_code; body = restored res.body }),
    exchange_line req res ∷ [],
    s,
  )

  abbrev pub unlogged : Outcome E × S → Outcome E × List (Line (Text E)) × S
  unlogged (o, s) = (o, [], s)

  -- `debugTransport.RoundTrip`, around the transport of net/http.
  unfoldable pub round_trip :
      Bool
      → (Request E → S → Outcome E × S)
      → Context
      → Request E
      → S
      → Outcome E × List (Line (Text E)) × S
  unfolding logs logged
  round_trip global_debug base ctx req s =
      if logs elasticw global_debug ctx
      then logged req (base (record { target = req.target; body = restored req.body }) s)
      else unlogged (base req s)
