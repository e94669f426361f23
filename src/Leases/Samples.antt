-- ===== src/Leases/Samples.antt =====
-- The theorems on leases, applied to two tasks that want the same files.
use xiao_ming.Prelude.{
  String, true, false, ◌≡◌, refl, ◌⊎◌, none, some, List, [], ◌∷◌, ◌++◌, map, if◌then◌else◌,
  contains, strip, replace_char, lstrip, rstrip, is_space, concat,
}
use xiao_ming.Prelude.Dict
use xiao_ming.Leases.Server.{Holders, acquire, normalize, taken, conflict, hold}
use xiao_ming.Leases.Server.Exclusion.{acquire_lem}
use xiao_ming.Leases.Server.Refinement.{Run, owners, answers, serve_all-Run}
use xiao_ming.Leases.Server.Trace.{Call, serve_all, acquire-serve_all-acquire}
use xiao_ming.Leases.Server.Trace
use xiao_ming.Leases.Client.{Client, release_all}
use xiao_ming.Leases.Client
use xiao_ming.Leases.Client.Sharing.{Leaves, file_of, acquire-foreign-Leaves, foreign_kept}

abbrev a_holds : Holders
a_holds = ("x.py", "a") ∷ []

acquire_lem_example :
    let normalized = map normalize ("y.py" ∷ "x.py" ∷ []) in
    let after = acquire "b" ("y.py" ∷ "x.py" ∷ []) a_holds in
    ((after.0.granted ≡ true)
      × ((p : String) → contains normalized p ≡ true → taken "b" (Dict.get a_holds p) ≡ false)
      × ((p : String)
          → Dict.get after.1 p ≡ (if contains normalized p then some "b" else Dict.get a_holds p)))
    ⊎ ((after.0.granted ≡ false)
        × (after.1 ≡ a_holds)
        × ((p : String) × (contains normalized p ≡ true) × (taken "b" (Dict.get a_holds p) ≡ true)))
acquire_lem_example = acquire_lem "b" ("y.py" ∷ "x.py" ∷ []) a_holds

abbrev calls : List Call
calls = Trace.acquiring "b" ("x.py" ∷ "z.py" ∷ []) ∷ Trace.releasing "b" none ∷ []

acquire-serve_all-acquire_example :
    let later = serve_all calls (acquire "a" ("x.py" ∷ []) []).1 in
    (Dict.get later "x.py" ≡ some "a") × ((acquire "b" ("x.py" ∷ []) later).0.granted ≡ false)
unfolding acquire conflict normalize strip lstrip rstrip is_space replace_char hold Dict.get
acquire-serve_all-acquire_example =
    acquire-serve_all-acquire [] "a" ("x.py" ∷ []) calls "b" ("x.py" ∷ []) "x.py" tt refl
      (refl, (refl, tt)) refl refl refl

-- File names without their digest.
abbrev sha256 : String → String
sha256 s = s

abbrev client : Client
client = record {
  files = ("x.py.json", some "a") ∷ ("y.py.json", some "b") ∷ [];
  held = "x.py.json" ∷ [];
}

acquire-foreign-Leaves_example :
    Leaves sha256 "a" false
      (λ q.
        if contains (map (file_of sha256 "a") ("x.py" ∷ [])) q
        then none
        else Dict.get client.files q)
      (Client.acquire sha256 "a" (("x.py" ∷ []) ++ "y.py" ∷ []) client)
unfolding normalize strip lstrip rstrip is_space replace_char concat Dict.get
acquire-foreign-Leaves_example =
    acquire-foreign-Leaves sha256 "a" client ("x.py" ∷ []) "y.py" [] (refl, tt) refl

foreign_kept_example :
    ((paths : List String)
      → Dict.get (Client.acquire sha256 "a" paths client).1.files "y.py.json"
        ≡ Dict.get client.files "y.py.json")
    × (Dict.get (release_all sha256 "a" client).files "y.py.json"
        ≡ Dict.get client.files "y.py.json")
unfolding Dict.get
foreign_kept_example = foreign_kept sha256 "a" "y.py.json" client refl

serve_all-Run_example :
    Run (owners a_holds) (answers calls a_holds) (owners (serve_all calls a_holds))
unfolding Dict.get
serve_all-Run_example = serve_all-Run calls a_holds (refl, tt)
