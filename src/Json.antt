-- ===== src/Json.antt =====
-- The JSON values of Python's `json` module.
use zaraamad_portal_be.Base.{Bool}
use zaraamad_portal_be.Base.Int.{ℤ, Float}
use zaraamad_portal_be.Text.{Text}

mutual
  pub data Json : Type 0 where
    null : Json
    bool : Bool → Json
    int : ℤ → Json
    float : Float → Json
    str : Text → Json
    array : JsonList → Json
    object : JsonFields → Json

  pub data JsonList : Type 0 where
    nil : JsonList
    item : Json → JsonList → JsonList

  -- The entries of a `dict`, in the order of their insertion.
  pub data JsonFields : Type 0 where
    end : JsonFields
    entry : Text → Json → JsonFields → JsonFields
