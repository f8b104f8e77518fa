-- ===== src/Common.antt =====
-- src/CPHFCommon.h: attributes, their ids and their labels.
pub mod Id
pub mod Label
use cphf.Base.{ℕ}
use cphf.Text.{Text}
use cphf.Map.{Map}

-- `cphf_attribute`: an id and a value.
abbrev pub Attribute : Type 0
Attribute = ℕ × Text

-- `CPHFFile::attributeFlags`: the label of each attribute id that a reader has announced.
abbrev pub AttributeFlags : Type 0
AttributeFlags = Map ℕ Text
