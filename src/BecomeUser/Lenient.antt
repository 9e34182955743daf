-- ===== src/BecomeUser/Lenient.antt =====
-- What a request brings where a wrong group is no error, which is the default.
use tsi.Base.{◌≡◌, ◌≢◌, refl, Bool, true, false, inl, inr, some}
use tsi.Base.{List, [], ◌∷◌, arith, Bool-cases, if◌then◌else◌, ◌==◌, contains, text_eq, int_eq}
use tsi.Base.Int.{ℤ, minus_one, int_beq_iff}
use tsi.Base.Dict.{Dict, insert, lookup, lookup-insert}
use tsi.Base.Exec.{Result, ok, err, pure, ◌>>=◌}
use tsi.Base.Text.{Text}
use tsi.UserCache.{UserCache, Os, get_gid_4group}
use tsi.UserCache.Entries.{SameUser-refl}
use tsi.UserCache.Fresh.{Fresh, gid_4group-ok}
use tsi.BecomeUser.Good.{
  Good, own_gids, Post, Post-bind, Post-ok, gid_4group-Good, gids_4user-Good, check_membership-Good,
}
use tsi.BecomeUser.{
  Config, default_gid, add_gids, add_named, add_requested, add_all, true_keys,
  get_supplementary_groups,
}

-- The gid is marked, and stays so.
abbrev Marked : ℤ → Dict ℤ Bool → Type 0
Marked x sup = lookup x sup ≡ some true

-- The marks after a round of the loop.
abbrev MarkedIn : ℤ → Bool × Dict ℤ Bool → Type 0
MarkedIn x acc = Marked x acc.1

Marked-insert : (x g : ℤ) (sup : Dict ℤ Bool) → Marked x sup → Marked x (insert g true sup)
Marked-insert x g sup h = ground (arith, lookup-insert g x true sup)

Marked-insert_self : (x : ℤ) (sup : Dict ℤ Bool) → Marked x (insert x true sup)
Marked-insert_self x sup = ground (arith, lookup-insert x x true sup, int_beq_iff x x)

Marked-add_gids :
    (x : ℤ) (ds : List ℤ) (sup : Dict ℤ Bool) → Marked x sup → Marked x (add_gids ds sup)
unfolding add_gids
Marked-add_gids x [] sup h = h
Marked-add_gids x (d ∷ ds) sup h =
    Marked-add_gids x ds (insert d true sup) (Marked-insert x d sup h)

contains-true_keys : (x : ℤ) (sup : Dict ℤ Bool) → Marked x sup → contains (true_keys sup) x ≡ true
unfolding true_keys contains lookup
contains-true_keys x [] h = cc
contains-true_keys x ((g, true) ∷ sup) h =
    ground (arith, int_beq_iff g x, int_beq_iff x g, contains-true_keys x sup)
contains-true_keys x ((g, false) ∷ sup) h =
    ground (arith, int_beq_iff g x, int_beq_iff x g, contains-true_keys x sup)

module _ (os : Os) (config : Config) (user : Text) (start : UserCache) where
  module _ (lenient : config.fail_on_invalid_gids ≡ false) where
    -- Without an error, whatever the membership test says.
    add_named-lenient :
        (g : Text) (sup : Dict ℤ Bool) (tmp : ℤ) (c : UserCache)
        → Good os user start c
        → add_named os config user g sup tmp c
          ≡ (ok (if tmp == minus_one then sup else insert tmp true sup), c)
    unfolding add_named
    add_named-lenient g sup tmp c good = elim (Bool-cases (tmp == minus_one)) [
      | inl e ↦ rw (e, lenient)
      | inr e ↦ rw e (rw (check_membership-Good os user start config tmp c good) (ground arith))
    ]

    named-Marked :
        (x : ℤ) (g : Text) (added : Bool) (sup : Dict ℤ Bool) (tmp : ℤ) (c : UserCache)
        → Good os user start c
        → Marked x (if tmp == minus_one then sup else insert tmp true sup)
        → Post os user start ⊥
            (MarkedIn x)
            ((add_named os config user g sup tmp >>= λ sup'. pure (added, sup')) c)
    named-Marked x g added sup tmp c good h = rw (add_named-lenient g sup tmp c good) (good, h)

    module _ (x : ℤ) where
      add_requested-Marked :
          (g : Text) (acc : Bool × Dict ℤ Bool) (c : UserCache)
          → Good os user start c
          → Marked x acc.1
          → Post os user start ⊥ (MarkedIn x) (add_requested os config user g acc c)
      unfolding add_requested
      add_requested-Marked g (added, sup) c good h = elim (Bool-cases (g == default_gid)) [
        | inl e ↦ rw e (elim (Bool-cases added) [
          | inl a ↦ rw a (good, h)
          | inr a ↦ rw a (
              rw (gids_4user-Good os user start c good)
                (good, Marked-add_gids x (own_gids os user start) sup h))
        ])
        | inr e ↦ rw e (
            Post-bind os user start ⊥ (λ _. Unit) (MarkedIn x) (get_gid_4group os g) _ c
              (Post-ok os user start ⊥ (λ _. Unit) _ _ (gid_4group-ok good.fresh g).1
                (gid_4group-Good os user start g c good) tt)
              λ tmp d good_d _. named-Marked x g added sup tmp d good_d (keeps tmp))
      ]
        where
          keeps : (tmp : ℤ) → Marked x (if tmp == minus_one then sup else insert tmp true sup)
          keeps tmp = ground (arith, Marked-insert x tmp sup h)

      add_all-Marked :
          (gs : List Text) (acc : Bool × Dict ℤ Bool) (c : UserCache)
          → Good os user start c
          → Marked x acc.1
          → Post os user start ⊥ (MarkedIn x) (add_all os config user gs acc c)
      unfolding add_all
      add_all-Marked [] acc c good h = (good, h)
      add_all-Marked (g ∷ gs) acc c good h =
          Post-bind os user start ⊥ (MarkedIn x) (MarkedIn x) (add_requested os config user g acc) _
            c (add_requested-Marked g acc c good h)
            λ acc' d good_d h'. add_all-Marked gs acc' d good_d h'

    first_round :
        (g : Text) (primary x : ℤ)
        → Good os user start start
        → (g == default_gid) ≡ false
        → (get_gid_4group os g start).0 ≡ ok x
        → x ≢ minus_one
        → Post os user start ⊥
            (MarkedIn x)
            (add_requested os config user g (false, (primary, true) ∷ []) start)
    unfolding add_requested
    first_round g primary x good named found known = rw named (
        Post-bind os user start ⊥ (λ tmp. tmp ≡ x) (MarkedIn x) (get_gid_4group os g) _ start
          (Post-ok os user start ⊥ (λ tmp. tmp ≡ x) _ x found
            (gid_4group-Good os user start g start good) refl)
          λ tmp d good_d e.
            named-Marked x g false ((primary, true) ∷ []) tmp d good_d (inserted tmp e))
      where
        inserted :
            (tmp : ℤ)
            → tmp ≡ x
            → Marked x (
                if tmp == minus_one
                then (primary, true) ∷ []
                else insert tmp true ((primary, true) ∷ []))
        inserted tmp e = ground (
          arith,
          e,
          int_beq_iff tmp minus_one,
          Marked-insert_self x ((primary, true) ∷ []),
          known,
        )

    get_supplementary_groups-Post :
        (g : Text) (rest : List Text) (primary x : ℤ)
        → Fresh os user start
        → (g == default_gid) ≡ false
        → (get_gid_4group os g start).0 ≡ ok x
        → x ≢ minus_one
        → Post os user start ⊥
            (λ gids. contains gids x ≡ true)
            (get_supplementary_groups os config (g ∷ rest) primary user start)
    unfolding get_supplementary_groups add_all
    get_supplementary_groups-Post g rest primary x fresh named found known =
        let good : Good os user start start = record {
          fresh = fresh;
          same = SameUser-refl user start;
        } in
        Post-bind os user start ⊥ (MarkedIn x) (λ gids. contains gids x ≡ true)
          (add_requested os config user g (false, (primary, true) ∷ [])
            >>= add_all os config user rest)
          _ start
          (Post-bind os user start ⊥ (MarkedIn x) (MarkedIn x)
            (add_requested os config user g (false, (primary, true) ∷ [])) _ start
            (first_round g primary x good named found known)
            λ acc d good_d h. add_all-Marked x rest acc d good_d h)
          λ acc d good_d h. (good_d, contains-true_keys x acc.1 h)

-- With `fail_on_invalid_gids` off, whatever `enforce_os_gids` says and whether or not the user is a
-- member: if the entry of the user is in its time and the group that is requested first exists and is
-- not the default one, then no error is raised, and the gid of the group is in the list that is returned.
pub get_supplementary_groups-lenient :
    (os : Os) (config : Config) (user g : Text) (rest : List Text) (primary x : ℤ) (c : UserCache)
    → config.fail_on_invalid_gids ≡ false
    → Fresh os user c
    → (g == default_gid) ≡ false
    → (get_gid_4group os g c).0 ≡ ok x
    → x ≢ minus_one
    → (gids : List ℤ) × ((get_supplementary_groups os config (g ∷ rest) primary user c).0 ≡ ok gids)
      × (contains gids x ≡ true)
get_supplementary_groups-lenient os config user g rest primary x c lenient fresh named found known =
    read_post _ (
      get_supplementary_groups-Post os config user c lenient g rest primary x fresh named found
        known)
  where
    read_post :
        (r : Result (List ℤ) × UserCache)
        → Post os user c ⊥ (λ gids. contains gids x ≡ true) r
        → (gids : List ℤ) × (r.0 ≡ ok gids) × (contains gids x ≡ true)
    read_post (ok gids, d) p = (gids, refl, p.1)
    read_post (err e, d) p = absurd p
