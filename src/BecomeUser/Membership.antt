-- ===== src/BecomeUser/Membership.antt =====
-- Which supplementary groups a request can bring where the groups of the system are enforced and a
-- wrong group is an error.
use tsi.Base.{◌≡◌, refl, subst, ◌⊎◌, inl, inr, ◌&&◌, not, Bool, true, false}
use tsi.Base.{List, [], ◌∷◌, arith, All, Bool-cases, if◌then◌else◌, ◌==◌, contains, text_eq, int_eq}
use tsi.Base.Int.{ℤ, minus_one, int_beq_iff}
use tsi.Base.Dict.{Dict, insert}
use tsi.Base.Exec.{Result, ok, err, runtime_error, not_a_member, pure, throw}
use tsi.Base.Text.{Text}
use tsi.UserCache.{UserCache, Os, get, get_gid_4group, id_or_minus_one, gids_or_empty}
use tsi.UserCache.Entries.{SameUser-refl}
use tsi.UserCache.Fresh.{Fresh, gid_4group-ok}
use tsi.BecomeUser.Good.{
  Good, own_gid, own_gids, Post, Post-bind, Post-ok, gid_4group-Good, gids_4user-Good, is_member,
  check_membership-Good,
}
use tsi.BecomeUser.{
  Config, default_gid, add_gids, add_named, add_requested, add_all, true_keys,
  get_supplementary_groups,
}

-- Every key of the dict.
abbrev AllKeys : (ℤ → Type 0) → Dict ℤ Bool → Type 0
AllKeys P = All (λ e. P e.0)

AllKeys-insert :
    (P : ℤ → Type 0) (g : ℤ) (sup : Dict ℤ Bool)
    → P g
    → AllKeys P sup
    → AllKeys P (insert g true sup)
unfolding insert
AllKeys-insert P g [] p h = (p, h)
AllKeys-insert P g ((j, b) ∷ sup) p h = elim (Bool-cases (j == g)) [
  | inl e ↦ rw e h
  | inr e ↦ rw e (h.0, AllKeys-insert P g sup p h.1)
]

AllKeys-add_gids :
    (P : ℤ → Type 0) (ds : List ℤ) (sup : Dict ℤ Bool)
    → All P ds
    → AllKeys P sup
    → AllKeys P (add_gids ds sup)
unfolding add_gids
AllKeys-add_gids P [] sup p h = h
AllKeys-add_gids P (d ∷ ds) sup p h =
    AllKeys-add_gids P ds (insert d true sup) p.1 (AllKeys-insert P d sup p.0 h)

All-true_keys : (P : ℤ → Type 0) (sup : Dict ℤ Bool) → AllKeys P sup → All P (true_keys sup)
unfolding true_keys
All-true_keys P [] h = h
All-true_keys P ((g, true) ∷ sup) h = (h.0, All-true_keys P sup h.1)
All-true_keys P ((g, false) ∷ sup) h = All-true_keys P sup h.1

-- Every element of a list is in it.
All-contains : (gs : List ℤ) (Q : ℤ → Type 0) → ((g : ℤ) → contains gs g ≡ true → Q g) → All Q gs
unfolding contains
All-contains [] Q f = tt
All-contains (g ∷ gs) Q f =
    (f g (ground (arith, int_beq_iff g g)), All-contains gs Q (λ x h. f x (ground arith)))

module _ (os : Os) (config : Config) (user : Text) (start : UserCache) (primary : ℤ) where
  abbrev Allowed : ℤ → Type 0
  Allowed g =
      (g ≡ primary) ⊎ (g ≡ own_gid os user start) ⊎ (contains (own_gids os user start) g ≡ true)

  abbrev AllowedAfter : Result (Bool × Dict ℤ Bool) × UserCache → Type 0
  AllowedAfter = Post os user start Unit (λ acc. AllKeys Allowed acc.1)

  module _ (enforced : config.enforce_os_gids ≡ true)
      (strict : config.fail_on_invalid_gids ≡ true) where
    is_member-Allowed : (g : ℤ) → is_member os user start config g ≡ true → Allowed g
    unfolding is_member
    is_member-Allowed g h = ground (arith, int_beq_iff g (own_gid os user start))

    after_test :
        (g : Text) (sup : Dict ℤ Bool) (tmp : ℤ) (c : UserCache)
        → Good os user start c
        → AllKeys Allowed sup
        → Post os user start Unit (AllKeys Allowed) (
            (if not (is_member os user start config tmp) && config.fail_on_invalid_gids
                then throw (runtime_error (not_a_member user g))
                else pure (insert tmp true sup))
              c)
    after_test g sup tmp c good h = elim (Bool-cases (is_member os user start config tmp)) [
      | inl m ↦ rw m (good, AllKeys-insert Allowed tmp sup (is_member-Allowed tmp m) h)
      | inr m ↦ rw (m, strict) tt
    ]

    add_named-Allowed :
        (g : Text) (sup : Dict ℤ Bool) (tmp : ℤ) (c : UserCache)
        → Good os user start c
        → AllKeys Allowed sup
        → Post os user start Unit (AllKeys Allowed) (add_named os config user g sup tmp c)
    unfolding add_named
    add_named-Allowed g sup tmp c good h = elim (Bool-cases (tmp == minus_one)) [
      | inl e ↦ rw (e, strict) tt
      | inr e ↦ rw e (
          rw (check_membership-Good os user start config tmp c good)
            (after_test g sup tmp c good h))
    ]

    add_requested-Allowed :
        (g : Text) (acc : Bool × Dict ℤ Bool) (c : UserCache)
        → Good os user start c
        → AllKeys Allowed acc.1
        → AllowedAfter (add_requested os config user g acc c)
    unfolding add_requested
    add_requested-Allowed g (added, sup) c good h = elim (Bool-cases (g == default_gid)) [
      | inl e ↦ rw e (elim (Bool-cases added) [
        | inl a ↦ rw a (good, h)
        | inr a ↦ rw a (
            rw (gids_4user-Good os user start c good) (
              good,
              AllKeys-add_gids Allowed (own_gids os user start) sup
                  (All-contains (own_gids os user start) Allowed (λ x m. inr (inr m))) h,
            ))
      ])
      | inr e ↦ rw e (
          Post-bind os user start Unit (λ _. Unit) (λ acc. AllKeys Allowed acc.1)
            (get_gid_4group os g) _ c
            (Post-ok os user start Unit (λ _. Unit) _ _ (gid_4group-ok good.fresh g).1
              (gid_4group-Good os user start g c good) tt)
            λ tmp d good_d _.
              Post-bind os user start Unit (AllKeys Allowed) (λ acc. AllKeys Allowed acc.1)
                (add_named os config user g sup tmp) _ d (add_named-Allowed g sup tmp d good_d h)
                λ sup' d' good' h'. (good', h'))
    ]

    add_all-Allowed :
        (gs : List Text) (acc : Bool × Dict ℤ Bool) (c : UserCache)
        → Good os user start c
        → AllKeys Allowed acc.1
        → AllowedAfter (add_all os config user gs acc c)
    unfolding add_all
    add_all-Allowed [] acc c good h = (good, h)
    add_all-Allowed (g ∷ gs) acc c good h =
        Post-bind os user start Unit (λ acc. AllKeys Allowed acc.1) (λ acc. AllKeys Allowed acc.1)
          (add_requested os config user g acc) _ c (add_requested-Allowed g acc c good h)
          λ acc' d good_d h'. add_all-Allowed gs acc' d good_d h'

    get_supplementary_groups-Post :
        (requested : List Text)
        → Fresh os user start
        → Post os user start Unit
            (All Allowed)
            (get_supplementary_groups os config requested primary user start)
    unfolding get_supplementary_groups
    get_supplementary_groups-Post requested fresh =
        Post-bind os user start Unit (λ acc. AllKeys Allowed acc.1) (All Allowed)
          (add_all os config user requested (false, (primary, true) ∷ [])) _ start
          (add_all-Allowed requested (false, (primary, true) ∷ []) start
            (record { fresh = fresh; same = SameUser-refl user start }) (inl refl, tt))
          λ acc d good h. (good, All-true_keys Allowed acc.1 h)

-- With `enforce_os_gids` and `fail_on_invalid_gids` on, and the entry of the user in its time: every
-- gid of the list that is returned is the primary one that was passed in, the primary gid of the
-- user or one of the gids of the user, as the cache has them.
pub get_supplementary_groups-members :
    (os : Os) (config : Config) (user : Text) (c : UserCache) (primary : ℤ) (requested : List Text)
    (gids : List ℤ)
    → config.enforce_os_gids ≡ true
    → config.fail_on_invalid_gids ≡ true
    → Fresh os user c
    → (get_supplementary_groups os config requested primary user c).0 ≡ ok gids
    → All
        (λ g.
          (g ≡ primary)
          ⊎ (g ≡ id_or_minus_one (get user c.gids))
          ⊎ (contains (gids_or_empty (get user c.all_groups)) g ≡ true))
        gids
get_supplementary_groups-members os config user c primary requested gids enforced strict fresh e =
    read_post _ gids
      (get_supplementary_groups-Post os config user c primary enforced strict requested fresh) e
  where
    read_post :
        (r : Result (List ℤ) × UserCache) (gs : List ℤ)
        → Post os user c Unit (All (Allowed os config user c primary)) r
        → r.0 ≡ ok gs
        → All (Allowed os config user c primary) gs
    read_post (ok a, d) gs p e = subst (All (Allowed os config user c primary)) (cc) p.1
    read_post (err x, d) gs p e = absurd (cc)
