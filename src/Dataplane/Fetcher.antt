-- ===== src/Dataplane/Fetcher.antt =====
-- The loop of a fetcher, Run of pkg/dataplane/client/fetcher.go, on what the stream returns in each
-- round. An error of the handler or of the acknowledgement is logged, and the loop goes on.
use clusterlink.Common.{
  ◌≡◌, refl, String, Bool, true, Option, none, some, List, [], ◌∷◌, Result, ok, err, ◌++◌, map,
}

-- The state that the handler works on, and `ready`.
pub record Fetching (D : Type 0) : Type 0 where
  pub dataplane : D
  pub ready : Bool

-- `handle` is the handler of the fetcher's type of resources, and `none` for an unknown type. The result
-- is the error that ends the loop, if a round has one.
unfoldable pub run_fetcher :
    {D Any : Type 0}
    → Option (List Any → D → D × Option String)
    → List (Result String (List Any))
    → Fetching D
    → Fetching D × Option String
run_fetcher handle [] f = (f, none)
run_fetcher handle (err e ∷ rounds) f = (f, some e)
run_fetcher none (ok resources ∷ rounds) f =
    (record f { ready = true }, some "unknown resource type")
run_fetcher (some handle) (ok resources ∷ rounds) f =
    run_fetcher (some handle) rounds
      (record { dataplane = (handle resources f.dataplane).0; ready = true })

-- After rounds without a failed fetch the fetcher is ready, and what it has last is what the handler makes
-- of the resources that were fetched last, on what the rounds before left.
pub run_fetcher-last :
    {D Any : Type 0} (handle : List Any → D → D × Option String) (earlier : List (List Any))
    (last : List Any) (f : Fetching D)
    → let before = run_fetcher (some handle) (map (λ rs. ok rs) earlier) f in
      run_fetcher (some handle) (map (λ rs. ok rs) (earlier ++ (last ∷ []))) f
      ≡ (record { dataplane = (handle last before.0.dataplane).0; ready = true }, none)
unfolding run_fetcher
run_fetcher-last handle [] last f = refl
run_fetcher-last handle (rs ∷ earlier) last f =
    run_fetcher-last handle earlier last
      (record { dataplane = (handle rs f.dataplane).0; ready = true })
