-- ===== src/Lib.antt =====
-- The Picture Metadata Toolkit: a tree of metadata instances with the keys, types and bounds of a
-- schema, which an application fills, searches and empties by key paths such as
-- `CaptureDevice.Lens[0-2]` and `Capture*[*]`.
--
-- A composite (src/PmtCore/PmtCompositeMetadata) looks a level of a path up among its elements
-- (src/PmtCore/PmtElement), one for each key of the schema. What is not there is asked of the model
-- group (src/PmtCore/PmtModelGroup), a tree of sequences and choices which decides whether the item
-- may be created; the element then has instances cloned by the factory (src/Ek/EkFactoryT.h) and
-- numbers them. A path is first checked by the key parser (src/PmtCore/PmtKeyParser), and the
-- brackets of each level are read by the occurrence class (src/PmtCore/PmtOccurrence), both with the
-- text class of src/Ek/ptstring. A name that src/PmtCore/PmtAliases knows stands for a list of
-- keys. An accessor passes pixels through a rectangle (src/PmtAccessor/PmtImageRect), keeps an XMP
-- packet as a tree (src/PmtAccessor/XMPDataNode), a QuickTime file as a tree of atoms
-- (src/PmtAccessor/PmtAtom), and escapes texts with src/PmtAccessor/XMLEncoder.
--
-- Files:
-- - Common: names, Boolean tests, vectors as lists, runs that may be undefined or out of fuel.
--   Common.Text: the methods of ptstring that keys are read with (find, substr, copy,
--   find_first_of, find_first_not_of), and their laws.
-- - Key: PmtKeyParser, one definition per method.
-- - Occurrence: PmtOccurrence, one definition per method. Argument texts and what they stand for are
--   in Occurrence.Parse and Occurrence.Specification, and where the parser is undefined in
--   Occurrence.Overflow and Occurrence.Listed.
-- - Element: PmtVectorElement and PmtOptionalOrSingularElement. The store and what is called of
--   PmtMetadata are an interface, `Metadata`.
-- - ModelGroup: PmtModelGroup, PmtSequenceModelGroup and PmtChoiceModelGroup over elements.
--   ModelGroup.Created: how many items of a group have something created.
-- - Composite: the heap of instances, which implements `Metadata`, and getMetadatum.
--   Composite.Search: getMetadataPath. Composite.Removal: deleteMetadataPath. Composite.Requests:
--   getMetadata and deleteMetadata, with aliases. Composite.Flat: deleteMetadatum of a model group on
--   the list that findMetadata searches. Composite.Numbering: the heap as the store of an element.
--   Composite.Sharing: the occurrence object that the loops of one search share.
-- - Aliases: PmtAliases; `list::sort` and `list::unique` are written out.
-- - Factory: the registry of prototypes of EkFactoryT. MapT: the map of src/Ek/EkMapT.h that is a
--   list. Rational: src/Ek/EkRational.h.
-- - Facet: the facets of PmtFacetT.h, and the facets of a value in PmtMetadataT.h.
-- - MdType: both getType of src/PmtCore/PmtMetadata.cpp.
-- - ImageRect: PmtImageRect. Xml: CXMLEncoder.
-- - XmpNode: XMPDataNode with GetKeyValue and UpdateKeyValue. XmpNode.Arrays: nodes by key, Seq and
--   Bag. XmpNode.Trees: what removes and updates. XmpNode.Joins: UpdateNode and AppendNode.
--   XmpNode.Names: SplitFullName, GetQName and ValidateNameSpace. XmpNode.Alternatives: the texts by
--   language of UpdateKeyValueAlt and GetKeyValueAlt. XmpNode.Output: `operator <<`.
--   XmpNode.Prefixes: XMPNameSpaceManager.
-- - MdIterator: PmtMetadataIterator. FullKey: key and fullKey. Attributes: the attributes of an
--   instance and the factories by name space. All are of src/PmtCore/PmtMetadata.
-- - Atom: the atoms of QuickTime files (src/PmtAccessor/PmtAtom), written and read from memory.
-- - Examples: the theorems at concrete inputs.
--
-- Fuel: the loop over the `*`s of a key and the loop over a specification take one round more than
-- the text has characters; a loop over occurrences takes two more than are listed, and one over
-- a wildcard one more than getWildcardMax at its start; a path takes one
-- level more than it has characters. Each round of the first two, and each level, reads a character
-- at least. An atom takes one round for itself and each of its atoms (Atom.Written.rounds). The
-- search below composites takes the depth of their nesting as an argument.
--
-- Numbers: an occurrence is a natural number, since only digits are read; where `atoi` or the loop
-- over a range would pass INT_MAX the run is `undefined`. The sizes of an image rectangle wrap at
-- 2 ^ 32, and the parts of a fraction at an argument, 2 ^ 32 or 2 ^ 64. An occurrence number is
-- printed with at most ten digits, which every `unsigned int` has. An element takes a number of
-- instances to make as an `int`, so that one from 2 ^ 31 on is below 0 (Element.rounds_of).
--
-- Parameters: the prototypes of the factory and their `clone`; `malloc`; the comparison of values and
-- how they are read from a text; the factory of atoms; in XmpNode.Names the prefixes that
-- XMPNameSpaceManager knows; the quotient and the comparison of doubles.
--
-- Not modelled: the values of attributes, printing of instances and visitors, the computation of a
-- fraction from a double, reference counts, locks and threads, the interpreter of schemas, which
-- stands on an XML parser that is not part of the repository, the translator, and the accessors of
-- file formats. The keys of a composite stand in the order that a clone of a prototype has.
pub mod Common
pub mod Key
pub mod Occurrence
pub mod FullKey
pub mod Element
pub mod ModelGroup
pub mod Aliases
pub mod Factory
pub mod Composite
pub mod ImageRect
pub mod MapT
pub mod Atom
pub mod Attributes
pub mod MdIterator
pub mod Facet
pub mod MdType
pub mod Rational
pub mod XmpNode
pub mod Xml
pub mod Examples
