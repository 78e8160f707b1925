-- ===== src/Users/Exclusive.antt =====
-- Roles that exclude each other, as long as no approval is given.
use nbes_backend.Base.{ℕ, ◌≡◌, false, ◌&&◌, List, All, str_eq}
use nbes_backend.Env.{Env}
use nbes_backend.Users.Model.{UserRole, Exclusion, Book}
use nbes_backend.Users.Roles.{holds}

-- Nobody holds both roles of a rule, which names two roles.
abbrev pub IsApart : List UserRole → Exclusion → Type 0
IsApart us e = (user : ℕ) → (holds user e.role_a us && holds user e.role_b us) ≡ false

abbrev pub IsExclusive : Book → Type 0
IsExclusive b =
    All (IsApart b.user_roles) b.exclusions
    × All (λ (e : Exclusion). str_eq e.role_a e.role_b ≡ false) b.exclusions
