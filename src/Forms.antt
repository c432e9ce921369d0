-- ===== src/Forms.antt =====
-- What the forms of frontend/src/components/panels and frontend/src/components/pages share: an
-- error text that a failed check sets and no check takes away.
use caronte.Prelude.{Bool, String, Option, some, if◌then◌else◌}

abbrev pub mark : Bool → String → Option String → Option String
mark failed message before = if failed then some message else before
